-- ===== src/Router/Net.antt =====
-- The interfaces of the router with their index, and the packets as worker.c and arp.c see them: the
-- fields of their headers, in host byte order. An address is a number.
use trusted_gateway.Prelude.{
  ℕ, ◌-◌, Bool, ◌||◌, List, ◌∷◌, Option, none, some, if◌then◌else◌, ◌==◌, ltb, length, get_elem?,
  set,
}
use trusted_gateway.Router.Egress.{Ifnet, pktq_do_menqueue}

-- `route_info_t`
pub record RouteInfo : Type 0 where
  pub if_idx : ℕ
  pub addr_len : ℕ
  pub next_hop : ℕ
  pub if_addr_idx : ℕ

-- `struct rte_arp_hdr` with its `struct rte_arp_ipv4`.
pub record Arp : Type 0 where
  pub arp_hardware : ℕ
  pub arp_hlen : ℕ
  pub arp_plen : ℕ
  pub arp_opcode : ℕ
  pub arp_sha : ℕ
  pub arp_sip : ℕ
  pub arp_tha : ℕ
  pub arp_tip : ℕ

-- A packet buffer with its headers and with its `npf_mbuf_priv_t`. `has_l2`, `is_ipv4` and `is_ipv6`
-- are the bits of `packet_type`, and `need_l2` is MBUF_NPF_NEED_L2.
pub record Pkt : Type 0 where
  pub id : ℕ
  pub data_off : ℕ
  pub data_len : ℕ
  pub has_l2 : Bool
  pub is_ipv4 : Bool
  pub is_ipv6 : Bool
  pub d_addr : ℕ
  pub s_addr : ℕ
  pub ether_type : ℕ
  pub arp : Arp
  pub ip_src : ℕ
  pub ip_dst : ℕ
  pub ip_ttl : ℕ
  pub need_l2 : Bool
  pub saved_type : ℕ
  pub route : RouteInfo
  pub out_if_idx : ℕ

-- What the firewall answers: the packet, an error with the packet, or NULL in the packet's place.
pub data Verdict : Type 0 where
  passed : Pkt → Verdict
  refused : Pkt → Verdict
  eaten : Verdict

-- The libraries that the router calls, and what the pool and `malloc` answer. `thmap_get` and
-- `thmap_put` are those of an ARP cache, a map from IP addresses to hardware addresses;
-- `npfk_packet_handler` is given the interface's index and whether the packet comes in; `new_buf` is
-- the n-th buffer that the pool hands out.
pub record Outside (M : Type 0) : Type 0 where
  pub thmap_get : M → ℕ → Option ℕ
  pub thmap_put : M → ℕ → ℕ → M
  pub lpm_lookup : ℕ → Option RouteInfo
  pub npfk_packet_handler : ℕ → Bool → Pkt → Verdict
  pub new_buf : ℕ → ℕ
  pub malloc_ok : Bool

-- `ifnet_t`: what the way out uses is in `link`.
pub record Iface (M : Type 0) : Type 0 where
  pub link : Ifnet
  pub hwaddr : ℕ
  pub ips : List ℕ
  pub arp_cache : M

-- `ifnet_map` up to `next_if_idx`, with the buffers that went back to the pool other than from a
-- queue, those that the firewall has consumed, and those that the pool has handed out.
pub record Net (M : Type 0) : Type 0 where
  pub ifaces : List (Iface M)
  pub freed : List ℕ
  pub consumed : List ℕ
  pub got : List ℕ

module _ {M : Type 0} where
  abbrev pub ifnet_dev_count : Net M → ℕ
  ifnet_dev_count s = length s.ifaces

  unfoldable pub ifnet_getbyidx : Net M → ℕ → Option (Iface M)
  ifnet_getbyidx s idx =
      if (idx == 0) || ltb (ifnet_dev_count s) idx then none else get_elem? s.ifaces (idx - 1)

  abbrev pub free_pkt : ℕ → Net M → Net M
  free_pkt m s = record s { freed = m ∷ s.freed }

  abbrev pub put_iface : ℕ → Iface M → Net M → Net M
  put_iface idx ifp s = record s { ifaces = set s.ifaces (idx - 1) ifp }

  -- `pktq_do_menqueue` by the interface's index: the number of packets, or `none` for -1.
  unfoldable pub menqueue_to : Option (Iface M) → ℕ → ℕ → List ℕ → Net M → Option ℕ × Net M
  menqueue_to none in_idx out_if_idx m_pool s = (none, s)
  menqueue_to (some out) in_idx out_if_idx m_pool s =
      let (n, link) = pktq_do_menqueue in_idx out.link m_pool in
      (some n, put_iface out_if_idx (record out { link = link }) s)

  unfoldable pub menqueue : ℕ → ℕ → List ℕ → Net M → Option ℕ × Net M
  unfolding menqueue_to ifnet_getbyidx
  menqueue in_idx out_if_idx m_pool s =
      if length m_pool == 0
      then (some 0, s)
      else menqueue_to (ifnet_getbyidx s out_if_idx) in_idx out_if_idx m_pool s
