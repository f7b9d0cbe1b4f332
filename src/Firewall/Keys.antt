-- ===== src/Firewall/Keys.antt =====
-- pkg/firewall/firewall.go: the key of a rule and the key of a flow.
pub mod Decimal
use liberator_node_go.Prelude.{
  ℕ, zero, suc, ◌+◌, ◌-◌, ◌*◌, ◌/◌, ◌%◌, ◌^◌, ◌≤◌, ◌<◌, bit_and, bit_or, ◌≡◌, refl, sym, ap, ◌∙◌,
  ◌≢◌, ◌↔◌, ◌⊎◌, inl, inr, Bool, true, false, not, ◌&&◌, ◌||◌, Option, none, some, List, [], ◌∷◌,
  ◌++◌, map, arith, if◌then◌else◌, ltb, leb, ◌==◌, Bytes, codes, bytes_beq, bytes_beq_iff, keep,
  length, nat_eq, bytes_eq, ==_iff, Bool-cases, Option-cases, In, All,
}
use liberator_node_go.Dgmessage.{HoleInfo}
use Decimal.{decimal}

-- makeGlobalKey: uint64(shortID) << 48 | localRuleID & 0x0000FFFFFFFFFFFF
unfoldable pub make_global_key : ℕ → ℕ → ℕ
make_global_key short local = bit_or (short * 2 ^ 48 % 2 ^ 64) (bit_and local 0x0000FFFFFFFFFFFF)

-- The two formats of makeFlowKey.
unfoldable pub icmp_key : ℕ → ℕ → Bytes
icmp_key a b = decimal a ++ b'|' ∷ (decimal b ++ b'|' ∷ codes "icmp")

unfoldable pub port_key : ℕ → ℕ → ℕ → ℕ → Bytes → Bytes
port_key a b p q protocol =
    decimal a ++ b'|' ∷ (decimal b ++ b'|' ∷ (decimal p ++ b'|' ∷ (decimal q ++ b'|' ∷ protocol)))

-- makeFlowKey
unfoldable pub make_flow_key : ℕ → ℕ → ℕ → ℕ → Bytes → Bytes
make_flow_key src_ip dst_ip src_port dst_port protocol =
    if bytes_beq protocol (codes "icmp")
    then (if ltb src_ip dst_ip then icmp_key src_ip dst_ip else icmp_key dst_ip src_ip)
    else if ltb src_ip dst_ip || (src_ip == dst_ip && ltb src_port dst_port)
    then port_key src_ip dst_ip src_port dst_port protocol
    else port_key dst_ip src_ip dst_port src_port protocol

unfoldable pub flow_key : HoleInfo → Bytes
flow_key info = make_flow_key info.src_ip info.dst_ip info.src_port info.dst_port info.protocol
