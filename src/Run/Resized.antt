-- ===== src/Run/Resized.antt =====
-- What `Resize` of pkg/run/workerpool.go leaves.
use kubecc.Common.{
  ℕ, zero, suc, ◌+◌, ◌-◌, ◌≡◌, refl, inl, inr, Bool-cases, ltb, ltb→lt, ltb-false→le, arith,
}
use kubecc.Run.{WorkerPool, pool_size, send_stop, send_stops, add_workers, resize}

send_stop_lem :
    (p : WorkerPool)
    → ((send_stop p).looping ≡ p.looping - 1)
      × ((send_stop p).waiting_stops ≡ p.waiting_stops + (1 - p.looping))
unfolding send_stop
send_stop_lem p = ground arith

send_stops_lem :
    (n : ℕ) (p : WorkerPool)
    → ((send_stops n p).looping ≡ p.looping - n)
      × ((send_stops n p).waiting_stops ≡ p.waiting_stops + (n - p.looping))
unfolding send_stops
send_stops_lem zero p = (omega arith, omega arith)
send_stops_lem (suc n) p =
    let (a, b) = send_stop_lem p in
    let (c, d) = send_stops_lem n (send_stop p) in (omega (arith, a, c), omega (arith, a, b, d))

add_workers_lem :
    (n : ℕ) (p : WorkerPool)
    → ((add_workers n p).looping ≡ p.looping + n)
      × ((add_workers n p).waiting_stops ≡ p.waiting_stops)
unfolding add_workers
add_workers_lem zero p = (omega arith, refl)
add_workers_lem (suc n) p =
    let (a, b) = add_workers_lem n (record p { looping = p.looping + 1 }) in (omega (arith, a), b)

-- For every pool and count: `Resize` leaves as many workers looping as the count exceeds the workers
-- that were leaving, and as many of its stops wait for good as those workers exceed the count; so
-- where no worker was leaving, the count is what loops, and none of its stops waits.
pub resize-looping :
    (p : WorkerPool) (count : ℕ)
    → ((resize count p).looping ≡ count - p.leaving)
      × ((resize count p).waiting_stops ≡ p.waiting_stops + (p.leaving - count))
unfolding resize pool_size
resize-looping p count = elim (Bool-cases (ltb (p.looping + p.leaving) count)) [
  | inl e ↦
      let (a, b) = add_workers_lem (count - (p.looping + p.leaving)) p in
      let l = ltb→lt (p.looping + p.leaving) count e in
      rw e (omega (arith, a, l), omega (arith, b, l))
  | inr e ↦ elim (Bool-cases (ltb count (p.looping + p.leaving))) [
    | inl f ↦
        let (a, b) = send_stops_lem (p.looping + p.leaving - count) p in
        let l = ltb→lt count (p.looping + p.leaving) f in
        rw (e, f) (omega (arith, a, l), omega (arith, b, l))
    | inr f ↦
        let l = ltb-false→le (p.looping + p.leaving) count e in
        let k = ltb-false→le count (p.looping + p.leaving) f in
        rw (e, f) (omega (arith, l, k), omega (arith, l, k))
  ]
]
