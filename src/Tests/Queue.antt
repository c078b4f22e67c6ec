-- ===== src/Tests/Queue.antt =====
-- Tests of the delivery queue: one delivery, claimed by the consumer and sent or retried.
use stonesuite_notify.Base.{
  ◌≡◌, refl, inl, String, Bool, true, false, List, [], ◌∷◌, map, arith, All, contains, IsKeyed, ok,
  eq_iff,
}
use stonesuite_notify.Deliveries.{
  DeliveryRow, Delivery, Channel, Status, new_row, claim, is_pending_due, claim_pending, enqueue,
  scan_delivery,
}
use stonesuite_notify.Deliveries.Claim.{Claims, by_consumer, Claims-Claims_disjoint}
use stonesuite_notify.Deliveries.Lifecycle.{
  Step, enqueued, claimed, empty, next, IsSound, Reach-IsSound, id_of,
}

abbrev two_pending : List DeliveryRow
two_pending =
    new_row "d1" 0 "n1" "t1" "u1" Channel.email Status.pending
    ∷ new_row "d2" 0 "n1" "t1" "u1" Channel.push Status.pending
    ∷ []

abbrev nobody : String → Bool
nobody _ = false

abbrev first : List DeliveryRow × List Delivery
first = claim (is_pending_due 10) nobody 1 10 two_pending

abbrev second : List DeliveryRow × List Delivery
second = claim (is_pending_due 20) nobody 5 20 first.0

claims_one : map (λ d. d.id) first.1 ≡ "d1" ∷ []
unfolding claim is_pending_due new_row scan_delivery
claims_one = refl

claims_the_other : map (λ d. d.id) second.1 ≡ "d2" ∷ []
unfolding claim is_pending_due new_row scan_delivery
claims_the_other = refl

two_pending-IsKeyed : IsKeyed id_of two_pending
unfolding new_row
two_pending-IsKeyed = (((λ e. cc ((eq_iff "d2" "d1").1 e)), tt), (tt, tt))

first_claim : Claims 100 10 10 two_pending first
unfolding claim_pending
first_claim = by_consumer nobody 1 refl

second_claim : Claims 100 20 20 first.0 second
unfolding claim_pending
second_claim = by_consumer nobody 5 refl

Claims-Claims_disjoint_example : All (λ d. contains d.id (map (λ e. e.id) first.1) ≡ false) second.1
Claims-Claims_disjoint_example =
    Claims-Claims_disjoint 100 10 10 20 20 two_pending first second first_claim second_claim
      (omega arith)

first_result : claim_pending true nobody 1 10 two_pending ≡ ok first
unfolding claim_pending
first_result = refl

abbrev one_pending : List DeliveryRow
one_pending = new_row "d1" 0 "n1" "t1" "u1" Channel.email Status.pending ∷ []

abbrev one_claimed : List DeliveryRow × List Delivery
one_claimed = claim (is_pending_due 10) nobody 20 10 one_pending

one_enqueued :
    Step 100 (record { table = []; working = [] }) (record { table = one_pending; working = [] })
unfolding enqueue
one_enqueued = enqueued "d1" 0 "n1" "t1" "u1" Channel.email Status.pending (inl refl) tt refl

one_taken :
    Step 100
      (record { table = one_pending; working = [] })
      (record { table = one_claimed.0; working = one_claimed.1 })
unfolding claim_pending
one_taken = claimed 10 10 (by_consumer nobody 20 refl)

Reach-IsSound_example : IsSound (record { table = one_claimed.0; working = one_claimed.1 })
Reach-IsSound_example = Reach-IsSound (next (next empty one_enqueued) one_taken)
