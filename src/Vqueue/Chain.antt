-- ===== src/Vqueue/Chain.antt =====
-- What the walk over a descriptor chain gathers, and that it ends.
use trusted_gateway.Prelude.{
  ℕ, zero, suc, ◌≤◌, ◌<◌, ◌≡◌, ◌≢◌, ◌⊎◌, subst, sym, true, false, List, [], ◌∷◌, ◌++◌, append_assoc,
  append-nil, none, some, ok, if◌then◌else◌, arith, length, inl, inr,
}
use trusted_gateway.Vqueue.State.{Desc, Ring, Vqueue, Iov, Iovs, Buf, no_error, u32}
use trusted_gateway.Vqueue.Avail.{
  put_iov, put_buf, walk, rounds, taken, vqueue_get_avail_buf, head_of, advance,
}

-- Room for the entries, and as many entries as counted.
pub record IovsValid (l : Iovs) : Type 0 where
  pub room : l.used ≤ l.cnt
  pub filled : length l.iovs ≡ l.used

pub record BufValid (b : Buf) : Type 0 where
  pub in_valid : IovsValid b.in_iovs
  pub out_valid : IovsValid b.out_iovs

-- The walk takes at most one round for each free entry, and one more.
pub walk-ne-none :
    (fuel : ℕ) (ring : Ring) (num i : ℕ) (b : Buf) → rounds b ≤ fuel → walk fuel ring num i b ≢ none
unfolding walk
walk-ne-none zero ring num i b h = absurd (omega arith)
walk-ne-none (suc fuel) ring num i b h =
    ground (arith, walk-ne-none fuel ring num (ring.desc i).next (put_buf (ring.desc i) b))

-- `vqueue_get_avail_buf` ends, whatever the other side has written into the ring: a descriptor
-- chain that is a cycle, too, is given up when the entries of the buffer are used up.
pub vqueue_get_avail_buf-ne-none :
    (ring : Ring) (vq : Vqueue) (b : Buf) → vqueue_get_avail_buf ring vq b ≢ none
unfolding vqueue_get_avail_buf
vqueue_get_avail_buf-ne-none ring vq b =
    ground (arith, walk-ne-none (rounds b') ring vq.num (head_of ring vq) b')
  where
    b' : Buf
    b' = taken (head_of ring vq) b

-- The descriptors of a chain that starts at an index and stays inside the table.
pub data Chain (ring : Ring) (num : ℕ) : ℕ → List Desc → Type 0 where
  last : (i : ℕ) → i < num → (ring.desc i).f_next ≡ false → Chain ring num i (ring.desc i ∷ [])
  link :
      (i : ℕ) {ds : List Desc}
      → i < num
      → (ring.desc i).f_next ≡ true
      → Chain ring num (ring.desc i).next ds
      → Chain ring num i (ring.desc i ∷ ds)

abbrev pub iov_of : Desc → Iov
iov_of d = record { base = 0; len = d.len; phys = u32 d.addr }

-- The entries for the descriptors that the device reads, and for those that it writes.
abbrev pub reads : List Desc → List Iov
reads [] = []
reads (d ∷ ds) = if d.f_write then reads ds else iov_of d ∷ reads ds

abbrev pub writes : List Desc → List Iov
writes [] = []
writes (d ∷ ds) = if d.f_write then iov_of d ∷ writes ds else writes ds

-- The entries are gathered behind those that are there.
record Gathered (ring : Ring) (num i : ℕ) (b b' : Buf) : Type 0 where
  ds : List Desc
  chain : Chain ring num i ds
  gathered_in : b'.in_iovs.iovs ≡ b.in_iovs.iovs ++ reads ds
  gathered_out : b'.out_iovs.iovs ≡ b.out_iovs.iovs ++ writes ds
  same_head : b'.head ≡ b.head

link-Gathered :
    (ring : Ring) (num i : ℕ) (b b' : Buf)
    → i < num
    → (ring.desc i).f_next ≡ true
    → Gathered ring num (ring.desc i).next (put_buf (ring.desc i) b) b'
    → Gathered ring num i b b'
unfolding put_buf put_iov
link-Gathered ring num i b b' h n g = record {
  ds = ring.desc i ∷ g.ds;
  chain = link i h n g.chain;
  gathered_in =
      ground (arith, append_assoc b.in_iovs.iovs (iov_of (ring.desc i) ∷ []) (reads g.ds));
  gathered_out =
      ground (arith, append_assoc b.out_iovs.iovs (iov_of (ring.desc i) ∷ []) (writes g.ds));
  same_head = ground arith;
}

last-Gathered :
    (ring : Ring) (num i : ℕ) (b : Buf)
    → i < num
    → (ring.desc i).f_next ≡ false
    → Gathered ring num i b (put_buf (ring.desc i) b)
unfolding put_buf put_iov
last-Gathered ring num i b h n = record {
  ds = ring.desc i ∷ [];
  chain = last i h n;
  gathered_in = ground (arith, append-nil b.in_iovs.iovs);
  gathered_out = ground (arith, append-nil b.out_iovs.iovs);
  same_head = ground arith;
}

walk_step :
    (fuel : ℕ) (ring : Ring) (num i : ℕ) (b b' : Buf)
    → walk (suc fuel) ring num i b ≡ some (ok (no_error, b'))
    → (i < num)
      × (((ring.desc i).f_next ≡ false) × (b' ≡ put_buf (ring.desc i) b)
          ⊎ ((ring.desc i).f_next ≡ true)
            × (walk fuel ring num (ring.desc i).next (put_buf (ring.desc i) b)
                ≡ some (ok (no_error, b'))))
unfolding walk
walk_step fuel ring num i b b' e = ground arith

walk-Gathered :
    (fuel : ℕ) (ring : Ring) (num i : ℕ) (b b' : Buf)
    → walk fuel ring num i b ≡ some (ok (no_error, b'))
    → Gathered ring num i b b'
walk-Gathered zero ring num i b b' e = absurd (unfold walk in cc)
walk-Gathered (suc fuel) ring num i b b' e =
    let (h, c) = walk_step fuel ring num i b b' e in
    elim c [
      | inl (n, p) ↦ subst (Gathered ring num i b) (sym p) (last-Gathered ring num i b h n)
      | inr (n, p) ↦
          link-Gathered ring num i b b' h n
            (walk-Gathered fuel ring num (ring.desc i).next (put_buf (ring.desc i) b) b' p)
    ]

-- What a successful call hands out.
pub record Taken (ring : Ring) (vq : Vqueue) (b' : Buf) : Type 0 where
  pub ds : List Desc
  pub chain : Chain ring vq.num (head_of ring vq) ds
  pub head : b'.head ≡ head_of ring vq
  pub taken_in : b'.in_iovs.iovs ≡ reads ds
  pub taken_out : b'.out_iovs.iovs ≡ writes ds

get_ok :
    (ring : Ring) (vq : Vqueue) (b b' : Buf) (vq' : Vqueue)
    → vqueue_get_avail_buf ring vq b ≡ some (ok (no_error, b', vq'))
    → (walk
          (rounds (taken (head_of ring vq) b))
          ring
          vq.num
          (head_of ring vq)
          (taken (head_of ring vq) b)
        ≡ some (ok (no_error, b')))
      × (vq' ≡ advance vq)
unfolding vqueue_get_avail_buf
get_ok ring vq b b' vq' e = ground arith

-- A call that succeeds returns the chain whose head is the next entry of the available ring, a
-- chain inside the table: its read-only descriptors, in order, in `in_iovs`, and its writable ones
-- in `out_iovs`. Nothing of the buffer's former entries is left, and the index goes on by one.
pub vqueue_get_avail_buf-Taken :
    (ring : Ring) (vq : Vqueue) (b : Buf) {b' : Buf} {vq' : Vqueue}
    → vqueue_get_avail_buf ring vq b ≡ some (ok (no_error, b', vq'))
    → Taken ring vq b' × (vq' ≡ advance vq)
vqueue_get_avail_buf-Taken ring vq b {b'} {vq'} e =
    let (w, a) = get_ok ring vq b b' vq' e in
    let g = walk-Gathered _ ring vq.num (head_of ring vq) (taken (head_of ring vq) b) b' w in
    (
      record {
        ds = g.ds;
        chain = g.chain;
        head = g.same_head;
        taken_in = g.gathered_in;
        taken_out = g.gathered_out;
      },
      a,
    )
