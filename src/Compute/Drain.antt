-- ===== src/Compute/Drain.antt =====
-- The drain loop of src/compute.cpp over the ring.
use ratehub.Prelude.{
  ℕ, zero, suc, ◌<◌, ◌≡◌, refl, ap, ◌∙◌, true, false, List, [], ◌∷◌, length, arith,
}
use ratehub.Types.{Record, blank_record}
use ratehub.SpscRing.{SpscRing, try_pop}
use ratehub.SpscRing.Queue.{dequeue}
use ratehub.SpscRing.Refine.{IsRing, contents, try_pop-refines, try_pop-IsRing}
use ratehub.Compute.{Memcpy, Fast, handle_record, handle_records, drain}
use ratehub.Layout.{SourceState}

module _ (m : Memcpy SourceState) where
  drain-queue :
      (q : List Record) (fuel : ℕ) (held : Record) (ring : SpscRing Record) (s : Fast)
      → IsRing 10 ring
      → contents 10 blank_record ring ≡ q
      → length q < fuel
      → ((drain m fuel held ring s).2 ≡ handle_records m s q)
        × (contents 10 blank_record (drain m fuel held ring s).1 ≡ [])
        × IsRing 10 (drain m fuel held ring s).1
  unfolding drain handle_records dequeue
  drain-queue q zero held ring s v same h = absurd (omega arith)
  drain-queue [] (suc fuel) held ring s v same h =
      let none_left : (try_pop 10 blank_record ring held).0 ≡ false =
        ap (λ t. t.0)
          (try_pop-refines 10 blank_record ring held v ∙ ap (λ c. dequeue c held) same) in
      rw none_left (refl, same, v)
  drain-queue (x ∷ q) (suc fuel) held ring s v same h =
      let next = try_pop-refines 10 blank_record ring held v ∙ ap (λ c. dequeue c held) same in
      let one_left : (try_pop 10 blank_record ring held).0 ≡ true = ap (λ t. t.0) next in
      let taken : (try_pop 10 blank_record ring held).1 ≡ x = ap (λ t. t.1) next in
      rw (one_left, taken)
        (drain-queue q fuel x (try_pop 10 blank_record ring held).2 (handle_record m s x)
          (try_pop-IsRing 10 blank_record ring held v) (ap (λ t. t.2) next) (omega arith))

  -- On a well-formed ring, with more rounds than waiting records, the drain loop handles exactly the
  -- waiting records, oldest first, and leaves the ring empty and well formed.
  pub drain-records :
      (fuel : ℕ) (held : Record) (ring : SpscRing Record) (s : Fast)
      → IsRing 10 ring
      → length (contents 10 blank_record ring) < fuel
      → ((drain m fuel held ring s).2 ≡ handle_records m s (contents 10 blank_record ring))
        × (contents 10 blank_record (drain m fuel held ring s).1 ≡ [])
        × IsRing 10 (drain m fuel held ring s).1
  drain-records fuel held ring s v h =
      drain-queue (contents 10 blank_record ring) fuel held ring s v refl h
