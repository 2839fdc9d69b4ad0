-- ===== src/Packet/Channel.antt =====
-- The channel that src/packet.rs chooses for a packet.
use co_net_l0d.Base.{
  ℕ, ◌+◌, ◌/◌, ◌%◌, ◌≤◌, ◌<◌, ◌≡◌, refl, sym, ◌∙◌, ◌↔◌, suc, zero, ap, Bool, true, false, some,
  List, [], ◌∷◌, ◌++◌, ◌⊎◌, inl, inr, arith, length, contains, Bytes,
}
use co_net_l0d.Packet.{
  at, be16, version, header_len, ipv4_l4_ports, choose_port, overlay_channel_port,
}

choose_port_swap : (s d : ℕ) (a b : Bool) → choose_port s d a b ≡ choose_port d s b a
unfolding choose_port
choose_port_swap s d true true = ground arith
choose_port_swap s d true false = refl
choose_port_swap s d false true = refl
choose_port_swap s d false false = refl

-- A packet and its reply, whose ports are swapped, belong to the same channel, for every set of
-- known ports.
pub overlay_channel_port_reply :
    (p q : Bytes) (s d : ℕ) (known : List ℕ)
    → ipv4_l4_ports p ≡ some (s, d)
    → ipv4_l4_ports q ≡ some (d, s)
    → overlay_channel_port p known ≡ overlay_channel_port q known
unfolding overlay_channel_port
overlay_channel_port_reply p q s d [] hp hq = refl
overlay_channel_port_reply p q s d (k ∷ ks) hp hq =
    rw (hp, hq) (choose_port_swap s d (contains (k ∷ ks) s) (contains (k ∷ ks) d))

-- Port `port` is known, it is one of the two ports, and the other port is unknown or the same.
abbrev pub IsChannel : ℕ → ℕ → (ℕ → Bool) → ℕ → Type 0
IsChannel s d known port =
    (known port ≡ true)
    × (((port ≡ s) × ((known d ≡ false) ⊎ (s ≡ d))) ⊎ ((port ≡ d) × ((known s ≡ false) ⊎ (s ≡ d))))

module _ (s d port : ℕ) (known : ℕ → Bool) where
  choose_port_sound : choose_port s d (known s) (known d) ≡ some port → IsChannel s d known port
  unfolding choose_port
  choose_port_sound h = ground arith

  choose_port_complete : IsChannel s d known port → choose_port s d (known s) (known d) ≡ some port
  unfolding choose_port
  choose_port_complete (k, inl (e, inl u)) = ground arith
  choose_port_complete (k, inl (e, inr u)) = ground (arith, ap known u, ap known e)
  choose_port_complete (k, inr (e, inl u)) = ground arith
  choose_port_complete (k, inr (e, inr u)) = ground (arith, ap known u, ap known e)

-- A TCP or UDP packet with these ports is given the channel `port` exactly when `port` is a known
-- port, is its source or its destination port, and the other one is unknown or the same.
pub overlay_channel_port_iff :
    (p : Bytes) (s d port : ℕ) (known : List ℕ)
    → ipv4_l4_ports p ≡ some (s, d)
    → (overlay_channel_port p known ≡ some port) ↔ IsChannel s d (contains known) port
unfolding overlay_channel_port
overlay_channel_port_iff p s d port [] hp = (λ h. ground arith, λ h. ground arith)
overlay_channel_port_iff p s d port (k ∷ ks) hp = rw hp (
  choose_port_sound s d port (contains (k ∷ ks)),
  choose_port_complete s d port (contains (k ∷ ks)),
)

pub at-append : (hdr rest : Bytes) (i : ℕ) → i < length hdr → at (hdr ++ rest) i ≡ at hdr i
at-append [] rest i h = absurd (omega arith)
at-append (b ∷ hdr) rest zero h = refl
at-append (b ∷ hdr) rest (suc i) h = at-append hdr rest i (omega arith)

-- The header of an IPv4 packet of TCP or UDP, options included.
pub record IsHeader (hdr : Bytes) : Type 0 where
  pub version_four : version hdr ≡ 4
  pub whole : length hdr ≡ header_len hdr
  pub minimal : 20 ≤ length hdr
  pub transport : (at hdr 9 ≡ 6) ⊎ (at hdr 9 ≡ 17)

ipv4_l4_ports-at :
    (p : Bytes) (n : ℕ)
    → version p ≡ 4
    → header_len p ≡ n
    → 20 ≤ n
    → n + 4 ≤ length p
    → (at p 9 ≡ 6) ⊎ (at p 9 ≡ 17)
    → ipv4_l4_ports p ≡ some (be16 (at p n) (at p (n + 1)), be16 (at p (n + 2)) (at p (n + 3)))
unfolding ipv4_l4_ports
ipv4_l4_ports-at p n v e m l t = rw (← e) (ground (arith, v, e, m, l, t))

four_bytes :
    (hdr rest : Bytes) (a b c d n : ℕ)
    → n ≡ length hdr
    → (n + 4 ≤ length (hdr ++ (a ∷ b ∷ c ∷ d ∷ rest)))
      × (at (hdr ++ (a ∷ b ∷ c ∷ d ∷ rest)) n ≡ a)
      × (at (hdr ++ (a ∷ b ∷ c ∷ d ∷ rest)) (n + 1) ≡ b)
      × (at (hdr ++ (a ∷ b ∷ c ∷ d ∷ rest)) (n + 2) ≡ c)
      × (at (hdr ++ (a ∷ b ∷ c ∷ d ∷ rest)) (n + 3) ≡ d)
four_bytes [] rest a b c d n e = rw e (omega arith, refl, refl, refl, refl)
four_bytes (x ∷ hdr) rest a b c d zero e = absurd (omega arith)
four_bytes (x ∷ hdr) rest a b c d (suc n) e =
    let (l, p, q, r, t) = four_bytes hdr rest a b c d n (omega arith) in
    (omega arith, p, shift 1 q, shift 2 r, shift 3 t)
  where
    shift :
        (k : ℕ) {v : ℕ}
        → at (hdr ++ (a ∷ b ∷ c ∷ d ∷ rest)) (n + k) ≡ v
        → at (x ∷ (hdr ++ (a ∷ b ∷ c ∷ d ∷ rest))) (suc n + k) ≡ v
    shift k h = rw (let same : suc n + k ≡ suc (n + k) = omega arith in same) h

-- Behind a well-formed IPv4 header of TCP or UDP, with options or none, the two ports are read as
-- they were written, big-endian, whatever follows them.
pub ipv4_l4_ports_of_header :
    (hdr rest : Bytes) (s d : ℕ)
    → IsHeader hdr
    → ipv4_l4_ports (hdr ++ (s / 256 ∷ s % 256 ∷ d / 256 ∷ d % 256 ∷ rest)) ≡ some (s, d)
ipv4_l4_ports_of_header hdr rest s d v =
    let bytes : Bytes = s / 256 ∷ s % 256 ∷ d / 256 ∷ d % 256 ∷ rest in
    let first : at (hdr ++ bytes) 0 ≡ at hdr 0 = at-append hdr bytes 0 (omega arith) in
    let ninth : at (hdr ++ bytes) 9 ≡ at hdr 9 = at-append hdr bytes 9 (omega arith) in
    let (fits, a, b, c, e) =
      four_bytes hdr rest (s / 256) (s % 256) (d / 256) (d % 256) (length hdr) refl in
    ipv4_l4_ports-at (hdr ++ bytes) (length hdr) (rw first v.version_four) (rw first (sym v.whole))
      v.minimal fits (rw ninth v.transport)
    ∙ rw (a, b, c, e) (ground arith)
