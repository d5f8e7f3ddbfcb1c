-- ===== src/Vqueue/Readable.antt =====
-- The entries of a chain that was taken off a ring whose descriptors are of moderate length: their
-- lengths add up to the length that the list keeps.
use trusted_gateway.Prelude.{
  ℕ, zero, suc, ◌+◌, ◌*◌, ◌≤◌, ◌<◌, ◌≡◌, refl, ap, sym, ◌∙◌, inr, ◌==◌, true, false, List, [], ◌∷◌,
  ◌++◌, Option, none, some, Outcome, ok, panic, arith, length, length-append,
}
use trusted_gateway.Vqueue.State.{Desc, Ring, Vqueue, Iov, Iovs, Buf, Status, no_error, u32}
use trusted_gateway.Vqueue.Avail.{
  put_iov, put_buf, list_of, walk, rounds, taken, vqueue_get_avail_buf, head_of,
}
use trusted_gateway.Vqueue.Iovs.{map_from}
use trusted_gateway.Vqueue.Chain.{IovsValid, iov_of}
use trusted_gateway.Iovec.Gather.{total, Based}

abbrev pub AllSmall : List Iov → Type 0
AllSmall [] = Unit
AllSmall (v ∷ vs) = (v.len < 0x40000000) × AllSmall vs

pub record Readable (l : Iovs) : Type 0 where
  pub valid : IovsValid l
  pub four : l.cnt ≡ 4
  pub summed : l.len ≡ u32 (total l.iovs)
  pub small : AllSmall l.iovs

AllSmall-append : (vs ws : List Iov) → AllSmall vs → AllSmall ws → AllSmall (vs ++ ws)
AllSmall-append [] ws h k = k
AllSmall-append (v ∷ vs) ws (h, hs) k = (h, AllSmall-append vs ws hs k)

total-append : (vs ws : List Iov) → total (vs ++ ws) ≡ total vs + total ws
total-append [] ws = omega arith
total-append (v ∷ vs) ws = omega (arith, total-append vs ws)

total_bound : (vs : List Iov) → AllSmall vs → total vs ≤ length vs * 0x3fffffff
total_bound [] h = omega arith
total_bound (v ∷ vs) (h, hs) = omega (arith, total_bound vs hs)

-- Four entries cannot overflow 32 bits.
pub total-Readable : (l : Iovs) → Readable l → (total l.iovs < 0x100000000) × (l.len ≡ total l.iovs)
total-Readable l r = omega (arith, total_bound l.iovs r.small)

put_iov-Readable :
    (d : Desc) (l : Iovs)
    → d.len < 0x40000000
    → d.len_again ≡ d.len
    → l.used < l.cnt
    → Readable l
    → Readable (put_iov d l)
unfolding put_iov
put_iov-Readable d l small same room r = record {
  valid = record {
    room = omega arith;
    filled = omega (arith, r.valid.filled, length-append {0} l.iovs (iov_of d ∷ []));
  };
  four = r.four;
  summed = omega (arith, same, r.summed, total-append l.iovs (iov_of d ∷ []));
  small = AllSmall-append l.iovs (iov_of d ∷ []) r.small (small, tt);
}

-- What the result says of the entries to read, which the caller has given room for four.
abbrev pub TakenReadable : Option (Outcome (Status × Buf)) → Type 0
TakenReadable none = Unit
TakenReadable (some (panic e)) = Unit
TakenReadable (some (ok (no_error, b))) = Readable b.in_iovs
TakenReadable (some (ok (s, b))) = b.in_iovs.cnt ≡ 4

-- Descriptors of less than a gigabyte, whose lengths are the same at both reads.
abbrev pub SmallDescs : Ring → Type 0
SmallDescs ring =
    (i : ℕ) → ((ring.desc i).len < 0x40000000) × ((ring.desc i).len_again ≡ (ring.desc i).len)

put_buf-Readable :
    (d : Desc) (b : Buf)
    → d.len < 0x40000000
    → d.len_again ≡ d.len
    → (list_of d b).used < (list_of d b).cnt
    → Readable b.in_iovs
    → Readable (put_buf d b).in_iovs
unfolding put_buf
put_buf-Readable d b small same room r = ground (arith, put_iov-Readable d b.in_iovs)

walk-Readable :
    (fuel : ℕ) (ring : Ring) (num i : ℕ) (b : Buf)
    → SmallDescs ring
    → Readable b.in_iovs
    → TakenReadable (walk fuel ring num i b)
unfolding walk
walk-Readable zero ring num i b small r = tt
walk-Readable (suc fuel) ring num i b small r = ground (
  arith,
  small i,
  r.four,
  put_buf-Readable (ring.desc i) b,
  walk-Readable fuel ring num (ring.desc i).next (put_buf (ring.desc i) b) small,
)

-- The same of the call, whose buffer has room for four entries to read.
abbrev pub CallReadable : Option (Outcome (Status × Buf × Vqueue)) → Type 0
CallReadable none = Unit
CallReadable (some (panic e)) = Unit
CallReadable (some (ok (no_error, b, vq))) = Readable b.in_iovs
CallReadable (some (ok (s, b, vq))) = b.in_iovs.cnt ≡ 4

pub vqueue_get_avail_buf-Readable :
    (ring : Ring) (vq : Vqueue) (b : Buf)
    → SmallDescs ring
    → b.in_iovs.cnt ≡ 4
    → CallReadable (vqueue_get_avail_buf ring vq b)
unfolding vqueue_get_avail_buf
vqueue_get_avail_buf-Readable ring vq b small four = ground (
  arith,
  walk-Readable (rounds b') ring vq.num (head_of ring vq) b' small (record {
    valid = record { room = omega arith; filled = refl };
    four = four;
    summed = refl;
    small = tt;
  }),
)
  where
    b' : Buf
    b' = taken (head_of ring vq) b

-- Mapping keeps the lengths, and gives each entry a base if it succeeds.
pub map_from-Based :
    (va : ℕ → ℕ) (vs : List Iov)
    → (map_from va vs).1 ≡ true
    → Based (map_from va vs).0 × (total (map_from va vs).0 ≡ total vs)
unfolding map_from
map_from-Based va [] h = (tt, refl)
map_from-Based va (v ∷ vs) h =
    let (some_base, done) = both va v vs h in
    let (bs, t) = map_from-Based va vs done in
    rw (some_base, done)
      ((inr (λ e. cc (sym some_base ∙ ap (λ a. a == 0) e)), bs), omega (arith, t))
  where
    both :
        (va : ℕ → ℕ) (v : Iov) (vs : List Iov)
        → (map_from va (v ∷ vs)).1 ≡ true
        → ((va v.phys == 0) ≡ false) × ((map_from va vs).1 ≡ true)
    both va v vs h = ground arith
