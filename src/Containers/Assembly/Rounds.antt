-- ===== src/Containers/Assembly/Rounds.antt =====
-- One round of the loops of `ServiceContainer.__init__` (nameko/containers.py).
use nameko.Prelude.{ℕ, ℕ_eq, String, ◌≡◌, ◌∙◌}
use nameko.Prelude.Dict.{put}
use nameko.Extensions.{Extension, ident, Host, iter_extensions}
use nameko.Extensions.Saved.{IsBound, IsSound}
use nameko.Extensions.Binding.{Binds}
use nameko.Containers.Assembly.Sets.{
  parts-IsBound, update_adds, SubsBound, update_bound, Reached, SetReached, more-Reached,
  put-Reached,
}
use nameko.Containers.Assembly.{Assembled, update_subextensions}

-- The state between two rounds of the loops.
pub record IsComplete (self : ℕ) (a : Assembled) : Type 0 where
  pub sound : IsSound a.host
  pub same : a.host.self ≡ self
  pub entrypoints_reached : SetReached self a.subextensions a.entrypoints
  pub dependencies_reached : SetReached self a.subextensions a.dependencies
  pub subextensions_bound : SubsBound self a.subextensions

pub dependency_IsComplete :
    (self : ℕ) (name : String) (a : Assembled) (p e : Extension) (h : Host)
    → IsComplete self a
    → Binds p a.host e h
    → IsComplete self (record a {
      host = h;
      dependencies = put (ident e) (name, e) a.dependencies;
      subextensions = update_subextensions (iter_extensions e) a.subextensions;
    })
dependency_IsComplete self name a p e h c b =
    let bound : IsBound self e = rw (← c.same) b.bound in
    let reached : Reached self (update_subextensions (iter_extensions e) a.subextensions) e =
      (bound, update_adds (iter_extensions e) a.subextensions) in
    record {
      sound = b.sound;
      same = b.later.same ∙ c.same;
      entrypoints_reached = λ i n x g.
          more-Reached self (iter_extensions e) a.subextensions x (c.entrypoints_reached i n x g);
      dependencies_reached =
          put-Reached self name e (update_subextensions (iter_extensions e) a.subextensions)
            a.dependencies reached
            (λ i n x g.
              more-Reached self (iter_extensions e) a.subextensions x
                (c.dependencies_reached i n x g));
      subextensions_bound =
          update_bound self (iter_extensions e) a.subextensions (parts-IsBound self e bound)
            c.subextensions_bound;
    }

pub entrypoint_IsComplete :
    (self : ℕ) (name : String) (a : Assembled) (p e : Extension) (h : Host)
    → IsComplete self a
    → Binds p a.host e h
    → IsComplete self (record a {
      host = h;
      entrypoints = put (ident e) (name, e) a.entrypoints;
      subextensions = update_subextensions (iter_extensions e) a.subextensions;
    })
entrypoint_IsComplete self name a p e h c b =
    let bound : IsBound self e = rw (← c.same) b.bound in
    let reached : Reached self (update_subextensions (iter_extensions e) a.subextensions) e =
      (bound, update_adds (iter_extensions e) a.subextensions) in
    record {
      sound = b.sound;
      same = b.later.same ∙ c.same;
      dependencies_reached = λ i n x g.
          more-Reached self (iter_extensions e) a.subextensions x (c.dependencies_reached i n x g);
      entrypoints_reached =
          put-Reached self name e (update_subextensions (iter_extensions e) a.subextensions)
            a.entrypoints reached
            (λ i n x g.
              more-Reached self (iter_extensions e) a.subextensions x
                (c.entrypoints_reached i n x g));
      subextensions_bound =
          update_bound self (iter_extensions e) a.subextensions (parts-IsBound self e bound)
            c.subextensions_bound;
    }
