-- ===== src/Runners.antt =====
-- `ServiceRunner` and `run_services` of nameko/runners.py, over the names and containers of services.
mod Examples
pub mod Serving
use Prim.Native.String.{◌++◌}
use nameko.Prelude.{
  ℕ, String, string_eq, Bool, true, false, Option, none, some, List, [], ◌∷◌, ◌≡◌, if◌then◌else◌,
}
use nameko.Prelude.Dict.{Dict, put}
use nameko.Exceptions.{Values}
use nameko.Exceptions.Registry.{Exc}
use nameko.Rpc.Server.{one_text}
use nameko.Action.{Result, returned, raised, Act, pure, throw, ◌>>=◌, ◌>>◌, emit, attempt}

-- `getattr(service_cls, 'name', None)`
pub data NameAttr : Type 0 where
  missing : NameAttr
  string : String → NameAttr
  no_string : NameAttr

pub record ServiceClass : Type 0 where
  pub name : NameAttr
  pub module_name : String
  pub class_name : String

abbrev pub configuration_error : String → Exc
configuration_error message = record {
  type = record { module_name = "nameko.exceptions"; name = "ConfigurationError" };
  args = one_text message;
  as_text = some message;
}

abbrev pub get_service_name : ServiceClass → Result Exc String
get_service_name cls = elim cls.name [
  | missing ↦ raised (
      configuration_error (
        "Service class must define a `name` attribute ("
        ++ (cls.module_name ++ ("." ++ (cls.class_name ++ ")")))))
  | string s ↦ returned s
  | no_string ↦ raised (
      configuration_error (
        "Service name attribute must be a string ("
        ++ (cls.module_name ++ ("." ++ (cls.class_name ++ ".name)")))))
]

-- A dict of containers by the name of their service.
module _ {C : Type 0} where
  abbrev pub containers : Dict String C → List C
  containers [] = []
  containers ((name, c) ∷ services) = c ∷ containers services

  -- `add_service`: `container_cls` makes the container, or raises.
  unfoldable pub add_service :
      (ServiceClass → Result Exc C) → ServiceClass → Dict String C → Result Exc (Dict String C)
  add_service container_cls cls service_map = elim (get_service_name cls) [
    | raised exc ↦ raised exc
    | returned name ↦ elim (container_cls cls) [
      | raised exc ↦ raised exc
      | returned c ↦ returned (put name c service_map)
    ]
  ]

  -- `for service in services: runner.add_service(service)`
  unfoldable pub add_services :
      (ServiceClass → Result Exc C) → List ServiceClass → Dict String C → Result Exc (Dict String C)
  unfolding add_service
  add_services container_cls [] service_map = returned service_map
  add_services container_cls (cls ∷ services) service_map =
      elim (add_service container_cls cls service_map) [
        | raised exc ↦ raised exc
        | returned more ↦ add_services container_cls services more
      ]

-- What a runner does to all of its containers at once.
pub data Told (C : Type 0) : Type 0 where
  started stopped killed : List C → Told C

-- What starting, stopping and killing the containers raises, if anything.
pub record Failures (C : Type 0) : Type 0 where
  pub of_start : List C → Option Exc
  pub of_stop : List C → Option Exc
  pub of_kill : List C → Option Exc

module _ {C : Type 0} (failures : Failures C) where
  -- `SpawningProxy` calls nothing if it has no items.
  abbrev tell : (List C → Told C) → (List C → Option Exc) → List C → Act Exc (Told C) Unit
  tell event failure [] = pure tt
  tell event failure (c ∷ rest) = attempt (event (c ∷ rest)) (failure (c ∷ rest))

  unfoldable pub start : Dict String C → Act Exc (Told C) Unit
  start service_map = tell started failures.of_start (containers service_map)

  unfoldable pub stop : Dict String C → Act Exc (Told C) Unit
  stop service_map = tell stopped failures.of_stop (containers service_map)

  unfoldable pub kill : Dict String C → Act Exc (Told C) Unit
  kill service_map = tell killed failures.of_kill (containers service_map)

  -- `wait`, when `fail_fast_imap` over the containers' own `wait` has come to this.
  unfoldable pub wait : {R : Type 0} → Dict String C → Result Exc (List R) → Act Exc (Told C) Unit
  unfolding stop
  wait service_map (returned results) = pure tt
  wait service_map (raised exc) = do stop service_map; throw exc

  abbrev lift : {A : Type 0} → Result Exc A → Act Exc (Told C) A
  lift (returned a) = pure a
  lift (raised exc) = throw exc

  -- `run_services`, with what the block of the `with` statement comes to.
  unfoldable pub run_services :
      (ServiceClass → Result Exc C)
      → List ServiceClass
      → Bool
      → Result Exc Unit
      → Act Exc (Told C) Unit
  unfolding add_services start stop kill
  run_services container_cls services kill_on_exit block = do
    service_map ← lift (add_services container_cls services [])
    start service_map
    lift block
    if kill_on_exit then kill service_map else stop service_map
