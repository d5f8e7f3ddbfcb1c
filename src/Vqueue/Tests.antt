-- ===== src/Vqueue/Tests.antt =====
-- The virtqueue's theorems on a ring of four descriptors.
use trusted_gateway.Prelude.{
  ℕ, ◌≡◌, ◌≢◌, refl, true, false, List, [], ◌∷◌, none, some, ok, if◌then◌else◌, ◌==◌, arith,
}
use trusted_gateway.Vqueue.State.{Desc, Ring, Vqueue, Iov, Iovs, Buf, no_error}
use trusted_gateway.Vqueue.Setup.{Mmu, vqueue_init, vqueue_vring_setup, align_up, vring_size}
use trusted_gateway.Vqueue.Avail.{walk, vqueue_get_avail_buf, advance}
use trusted_gateway.Vqueue.Chain.{Taken, vqueue_get_avail_buf-ne-none, vqueue_get_avail_buf-Taken}
use trusted_gateway.Vqueue.Rounds.{Accounted, vqueue_get_avail_buf-Accounted}
use trusted_gateway.Vqueue.Layout.{Call, setup, call, run}

-- Descriptor 0 is read, and chained to descriptor 2, which is written.
abbrev table : ℕ → Desc
table i =
    if i == 0
    then record {
      addr = 0x1000;
      addr_again = 0x1000;
      len = 10;
      len_again = 10;
      f_write = false;
      f_next = true;
      next = 2;
    }
    else record {
      addr = 0x2000;
      addr_again = 0x2000;
      len = 64;
      len_again = 64;
      f_write = true;
      f_next = false;
      next = 0;
    }

abbrev ring : Ring
ring = record {
  desc = table;
  avail_idx = 1;
  avail_idx_again = 1;
  avail_ring = λ i. 0;
  used_no_notify = false;
  used_idx = 0;
  used_ring = λ i. record { id = 0; len = 0 };
}

abbrev queue : Vqueue
queue = record {
  id = 1;
  num = 4;
  num_default = 4;
  desc_ptr = 0x10000;
  avail_ptr = 0x10040;
  used_ptr = 0x11000;
  vring_addr = 0x10000;
  vring_sz = 4134;
  vring_align = 4096;
  last_avail_idx = 0;
}

abbrev no_iovs : Iovs
no_iovs = record { cnt = 2; used = 0; len = 0; iovs = [] }

abbrev buffer : Buf
buffer = record { head = 0; in_iovs = no_iovs; out_iovs = no_iovs }

abbrev filled : Buf
filled = record {
  head = 0;
  in_iovs = record {
    cnt = 2;
    used = 1;
    len = 10;
    iovs = record { base = 0; len = 10; phys = 0x1000 } ∷ [];
  };
  out_iovs = record {
    cnt = 2;
    used = 1;
    len = 64;
    iovs = record { base = 0; len = 64; phys = 0x2000 } ∷ [];
  };
}

takes_chain : vqueue_get_avail_buf ring queue buffer ≡ some (ok (no_error, filled, advance queue))
unfolding vqueue_get_avail_buf walk
takes_chain = refl

vqueue_get_avail_buf-ne-none_example : vqueue_get_avail_buf ring queue buffer ≢ none
vqueue_get_avail_buf-ne-none_example = vqueue_get_avail_buf-ne-none ring queue buffer

vqueue_get_avail_buf-Taken_example : Taken ring queue filled × (advance queue ≡ advance queue)
vqueue_get_avail_buf-Taken_example = vqueue_get_avail_buf-Taken ring queue buffer takes_chain

vqueue_get_avail_buf-Accounted_example :
    Accounted ring queue buffer (vqueue_get_avail_buf ring queue buffer)
vqueue_get_avail_buf-Accounted_example =
    vqueue_get_avail_buf-Accounted ring queue buffer (omega arith) (omega arith)

-- The other side publishes a buffer between the two looks.
abbrev drained : Ring
drained = record ring { avail_idx = 0; avail_idx_again = 0 }

-- Pages that are mapped one to one.
abbrev identity : Mmu
identity = record { va_before = λ pa. pa; va_after = λ pa. pa; add_mapping = λ pa sz. true }

abbrev calls : List Call
calls = setup identity 0x10000 0x10040 0x11000 ∷ []

ring_is_laid_out : run calls (vqueue_init 1 4 4096) ≡ ok queue
unfolding run call vqueue_vring_setup vqueue_init align_up vring_size
ring_is_laid_out = refl

abbrev two_pages : List Iov
two_pages =
    record { base = 0; len = 10; phys = 0x1000 } ∷ record { base = 0; len = 64; phys = 0x2000 } ∷ []
