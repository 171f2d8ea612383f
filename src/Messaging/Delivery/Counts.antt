-- ===== src/Messaging/Delivery/Counts.antt =====
-- How often a message was settled in a record of effects.
use nameko.Prelude.{ℕ, suc, ◌+◌, ◌≡◌, List, [], ◌∷◌, ◌++◌, arith, nat_eq, if◌then◌else◌}
use nameko.Messaging.Delivery.{Effect, acked, requeued, replied}

module _ {R : Type 0} where
  -- Acknowledgements and requeues of the message with this tag.
  unfoldable pub settlements : ℕ → List (Effect R) → ℕ
  settlements tag [] = 0
  settlements tag (acked t ∷ log) = (if nat_eq t tag then 1 else 0) + settlements tag log
  settlements tag (requeued t ∷ log) = (if nat_eq t tag then 1 else 0) + settlements tag log
  settlements tag (replied r ∷ log) = settlements tag log

  unfoldable pub replies : List (Effect R) → ℕ
  replies [] = 0
  replies (replied r ∷ log) = suc (replies log)
  replies (_ ∷ log) = replies log

  pub settlements-append :
      (tag : ℕ) (xs ys : List (Effect R))
      → settlements tag (xs ++ ys) ≡ settlements tag xs + settlements tag ys
  unfolding settlements
  settlements-append tag [] ys = omega arith
  settlements-append tag (acked t ∷ log) ys = omega (arith, settlements-append tag log ys)
  settlements-append tag (requeued t ∷ log) ys = omega (arith, settlements-append tag log ys)
  settlements-append tag (replied r ∷ log) ys = settlements-append tag log ys

  pub replies-append : (xs ys : List (Effect R)) → replies (xs ++ ys) ≡ replies xs + replies ys
  unfolding replies
  replies-append [] ys = omega arith
  replies-append (replied r ∷ log) ys = omega (arith, replies-append log ys)
  replies-append (acked t ∷ log) ys = replies-append log ys
  replies-append (requeued t ∷ log) ys = replies-append log ys
