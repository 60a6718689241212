-- ===== src/Rules/Matching.antt =====
-- What `PacketFilter::matches` accepts.
use packet_classifier.Prelude.{ℕ, ◌≤◌, ◌≡◌, ◌↔◌, ◌⊎◌, true, arith}
use packet_classifier.Rules.{PacketHeader, PacketFilter, matches}

-- A range filter that is not set, or that the port lies in.
abbrev pub PortFits : ℕ → ℕ → ℕ → Type 0
PortFits low high port = ((low ≡ 0) × (high ≡ 0)) ⊎ ((low ≤ port) × (port ≤ high))

abbrev pub Fits : PacketFilter → PacketHeader → Type 0
Fits f h =
    ((f.protocol ≡ 0) ⊎ (f.protocol ≡ h.protocol))
    × PortFits f.source_port_low f.source_port_high h.source_port
    × PortFits f.dest_port_low f.dest_port_high h.dest_port

pub matches-Fits : (f : PacketFilter) (h : PacketHeader) → matches f h ≡ true → Fits f h
unfolding matches
matches-Fits f h e = ground arith

pub Fits-matches : (f : PacketFilter) (h : PacketHeader) → Fits f h → matches f h ≡ true
unfolding matches
Fits-matches f h e = ground arith

-- A filter matches a packet exactly where its protocol is 0 or that of the packet, and each of its
-- port ranges is 0-0 or holds the port of the packet.
pub matches_iff : (f : PacketFilter) (h : PacketHeader) → (matches f h ≡ true) ↔ Fits f h
matches_iff f h = (matches-Fits f h, Fits-matches f h)
