-- ===== src/Lib.antt =====
-- TrustedGateway, the trusted network I/O of a gateway that runs in OP-TEE: the network card, the
-- router and its firewall belong to the secure world, and the normal world's Linux reaches the
-- network by a split driver and by a virtual network card. The normal world is not trusted: what it
-- writes to a register or to shared memory is arbitrary here.
--
-- Parts, and how they interact.
--
-- * Fec (fec_drivers/bstgw/nw_mmio_traps.c, the software steps of fec_drivers/bstgw/imx_fec.c,
--   fec_drivers/include/sw_fec_state.h). Each access of Linux's driver to the registers of the card
--   traps into `fec_emu_check`, which drives a state machine through the open, restart and stop
--   sequences, decides whether the access reaches the card, and with which value. `Fec.State` has
--   the states and registers, `Fec.Steps` the trusted steps, `Fec.Sequences` the
--   two sequences, `Fec.Traps` the trap. A step's writes
--   to registers that no trap reads are only recorded, in order.
-- * Txq (the transmit ring of fec_drivers/bstgw/imx_fec.c). `Txq.Ring` has the submission of the
--   router's packets to the card and the completion, which frees what the card has sent. Pointers
--   into the ring are indices; which descriptors the card has sent, and what `reg_desc_active` is read
--   as, are arguments.
-- * Virtio (virtio-nic/vnic/src/virtio-mmio.c, virtio.c, the device part of virtio-net.c, vnic.c).
--   The registers of the virtual card. `Virtio.State` has `vdev_t` and `mmio_t`, `Virtio.Device`
--   the functions of virtio.c, `Virtio.Net` those of virtio-net.c, `Virtio.Mmio` the registers and
--   `vnic_emu_check`, `Virtio.Init` the state that `vnic_init` sets up.
-- * Vqueue (virtio-nic/vnic/src/vqueue.c, virtio-nic/vnic/include/virtio/virtio_ring.h). The rings
--   that the virtual card shares with Linux. `Vqueue.State` has queue and ring, `Vqueue.Setup` the
--   life of a ring, `Vqueue.Avail` and `Vqueue.Used` the two directions, `Vqueue.Iovs` the mapping
--   of buffers. Virtio sets queues up, tears them down and signals them.
-- * Napi (nettrug/napi/napi.c, notifier.c, and `worker_run` of nettrug/pta/npf_router.c). A worker
--   thread polls a device while its NAPI is scheduled and sleeps otherwise; the notifier wakes it;
--   the drivers disable and enable it. `Napi.Ops` has the operations, `Napi.Worker` the threads as
--   a relation of steps, `Napi.Registry` the slots of a device.
-- * Pktq (nettrug/pta/bstgw_pktq.h, bstgw_netif_utils.h). The bounded queues from the router to the
--   interfaces.
-- * Iovec (virtio-nic/vnic/src/iovec.c). The copies between a packet buffer and a vector of buffers
--   of the normal world, in `Iovec.Ops`. The normal world's memory is a function from addresses to
--   bytes, and a copy outside a packet buffer is a panic, since C leaves it undefined.
-- * Vnic (the data path of virtio-nic/vnic/src/virtio-net.c, `router_in_burst_size` of
--   nettrug/pta/npf_router.c). `Vnic.FlushTx` has `virtio_net_flush_tx`, which takes the normal world's
--   packets off the transmit ring, copies them into packet buffers and passes them to the router;
--   `Vnic.Receive` has `virtio_net_receive`, the way back. What the normal world writes to the rings
--   and to its memory between two rounds is an argument, as is what the pool hands out. `Vnic.Poll` has
--   `vnic_poll` of vnic.c, which runs both in turn with the router's transmission and ends with a
--   protocol between NAPI and the rings. Its loop may go on for ever, and is cut off by fuel.
-- * Router (nettrug/pta/worker.c, arp.c). `Router.Net` has the interfaces and the packets, a packet as
--   its headers' fields; `Router.Resolve` and `Router.Arp` the ARP cache, requests and replies;
--   `Router.Input` the way of a burst through the firewall and the routing decision into the queues of
--   Pktq; `Router.Egress` the transmission by an interface's handler, which is a parameter. The
--   parameter `Outside` has the libraries that the router calls: the hash map of the ARP caches, the
--   routing table's lookup, the firewall, the pool and `malloc`.
-- * Ethbuf (nettrug/pta/bstgw_eth_buf.c). The packet buffers that all of these pass on.
--   `Ethbuf.Pool` has the pool's two lists, `Ethbuf.Data` the data of a buffer and of a chain. What
--   `malloc` answers is an argument.
-- * Pta (nettrug/pta/trust_router.c, the binding of workers in npf_router.c). The entry points by which
--   the normal world's threads become workers of the router and the web stub configures the firewall.
--   `Pta.Sessions` opens and closes sessions, `Pta.Commands` has the commands; libnv and NPF are
--   parameters.
-- * Ringbuf (configservice/ta/ringbuffer.c). The byte ring over which the configuration service's
--   trusted part talks to its untrusted part. A copy outside the array is a panic here, since C
--   leaves it undefined.
--
-- Conventions. A function that may panic answers an `Outcome`; a panic stops the TEE, and assertions
-- panic like it. Addresses and registers are natural numbers, and a wrap-around at 16, 32 or 64 bits
-- is written out. The walk over a descriptor chain recurses on fuel: one round more than there is
-- room in the caller's two lists, which is enough since each round takes one entry.
-- The other side's memory may change between any two reads. A function that reads the same place of
-- the rings twice takes two values: `avail_idx` and `avail_idx_again`, and of a descriptor `addr` and
-- `addr_again`, `len` and `len_again`, and the two flags. A call that comes to a descriptor twice, in a
-- cycle, sees it the same both times, and in `vqueue_num_of_avail_buf_and_notify` the reads of the
-- index after the first one give one value. Between calls the rings change as the arguments say. An
-- access through NULL is a panic here, like a copy outside an array. Locks are not state: an operation
-- under a lock is one step.
--
-- Not modelled: OP-TEE's memory manager, which is a parameter of the set-up of rings and of the
-- mapping of buffers; the libraries in `Outside` and of `Pta`; the router's built-in
-- configuration and start-up; the rest of the configuration service; the NIC's receive
-- ring and the untrusted programs.
pub mod Prelude
pub mod Fec
pub mod Txq
pub mod Vqueue
pub mod Virtio
pub mod Napi
pub mod Pktq
pub mod Ethbuf
pub mod Iovec
pub mod Vnic
pub mod Router
pub mod Pta
pub mod Ringbuf
