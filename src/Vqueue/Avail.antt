-- ===== src/Vqueue/Avail.antt =====
-- Taking buffers off the available ring.
use trusted_gateway.Prelude.{
  ℕ, zero, suc, ◌+◌, ◌-◌, ◌%◌, ◌++◌, ◌∷◌, [], Option, none, some, Outcome, ok, panic, bad_ring,
  null_pointer, if◌then◌else◌, ◌==◌, ltb, leb,
}
use trusted_gateway.Vqueue.State.{
  Desc, Ring, Vqueue, Iovs, Buf, Status, no_error, channel_closed, not_enough_buffer, not_valid,
  too_big, u16, u32,
}

-- The entry of a list that `cnt` still has room for. The base is set when the entry is mapped. The
-- length of the entry and what the list's length grows by are two reads.
unfoldable pub put_iov : Desc → Iovs → Iovs
put_iov d l = record l {
  used = l.used + 1;
  len = u32 (l.len + d.len_again);
  iovs = l.iovs ++ (record { base = 0; len = d.len; phys = u32 d.addr } ∷ []);
}

abbrev pub list_of : Desc → Buf → Iovs
list_of d b = if d.f_write then b.out_iovs else b.in_iovs

unfoldable pub put_buf : Desc → Buf → Buf
unfolding put_iov
put_buf d b =
    if d.f_write
    then record b { out_iovs = put_iov d b.out_iovs }
    else record b { in_iovs = put_iov d b.in_iovs }

-- The `do` loop over the descriptor chain. `none` means that the fuel ran out. A physical address
-- that `paddr_t` cannot hold, or that is not the same when it is read again, fails the assertion.
unfoldable pub walk : ℕ → Ring → ℕ → ℕ → Buf → Option (Outcome (Status × Buf))
unfolding put_buf
walk zero ring num next_idx b = none
walk (suc fuel) ring num next_idx b =
    let d = ring.desc next_idx in
    let rest = walk fuel ring num d.next (put_buf d b) in
    if leb num next_idx
    then some (ok (not_valid, b))
    else (if ltb (list_of d b).used (list_of d b).cnt
        then (if u32 d.addr == d.addr_again
            then (if d.f_next then rest else some (ok (no_error, put_buf d b)))
            else some (panic bad_ring))
        else some (ok (too_big, b)))

-- One more round than there is room for in the two lists.
abbrev pub rounds : Buf → ℕ
rounds b = (b.in_iovs.cnt - b.in_iovs.used) + (b.out_iovs.cnt - b.out_iovs.used) + 1

abbrev pub emptied : Iovs → Iovs
emptied l = record l { used = 0; len = 0; iovs = [] }

abbrev pub taken : ℕ → Buf → Buf
taken head b = record b { head = head; in_iovs = emptied b.in_iovs; out_iovs = emptied b.out_iovs }

-- `avail->idx - last_avail_idx`, of 16 bits, at the first read of the index.
abbrev pub avail_count : Ring → Vqueue → ℕ
avail_count ring vq = u16 (ring.avail_idx + 0x10000 - vq.last_avail_idx)

-- On a queue that is not set up, `vring.avail` is NULL.
unfoldable pub vqueue_num_of_avail_buf : Ring → Vqueue → Outcome ℕ
vqueue_num_of_avail_buf ring vq =
    if vq.vring_addr == 0 then panic null_pointer else ok (avail_count ring vq)

-- The index that the next buffer starts at.
abbrev pub head_of : Ring → Vqueue → ℕ
head_of ring vq = ring.avail_ring (vq.last_avail_idx % vq.num)

abbrev pub advance : Vqueue → Vqueue
advance vq = record vq { last_avail_idx = u16 (vq.last_avail_idx + 1) }

abbrev pub paired : Vqueue → Outcome (Status × Buf) → Outcome (Status × Buf × Vqueue)
paired vq (ok (s, b)) = ok (s, b, vq)
paired vq (panic e) = panic e

abbrev pub or_stuck :
    Vqueue → Option (Outcome (Status × Buf)) → Option (Outcome (Status × Buf × Vqueue))
or_stuck vq none = none
or_stuck vq (some o) = some (paired vq o)

-- `_vqueue_get_avail_buf_locked`, which reads the available index twice, under the lock of `vqueue_get_avail_buf`.
unfoldable pub vqueue_get_avail_buf : Ring → Vqueue → Buf → Option (Outcome (Status × Buf × Vqueue))
unfolding walk
vqueue_get_avail_buf ring vq b =
    let b' = taken (head_of ring vq) b in
    if vq.vring_addr == 0
    then some (ok (channel_closed, b, vq))
    else (if ltb (u16 vq.num) (avail_count ring vq)
        then some (panic bad_ring)
        else (if vq.last_avail_idx == ring.avail_idx_again
            then some (ok (not_enough_buffer, b, vq))
            else (if leb vq.num (head_of ring vq)
                then some (panic bad_ring)
                else or_stuck (advance vq) (walk (rounds b') ring vq.num (head_of ring vq) b'))))
