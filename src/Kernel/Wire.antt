-- ===== src/Kernel/Wire.antt =====
-- What the program reads of a frame that is given by its bytes.
use Prim.Native.Nat.{bit_and}
use lanscope.Common.Flow.{flow_key_Eq}
use lanscope.Kernel.Packet.{parse_ipv4, ethernet, load_mac, load_u8, load_u16_be, load_u32_be}
use lanscope.Base.{
  nat_Eq, refl, some, none, ◌≡◌, ℕ, ◌<◌, ◌≤◌, ◌+◌, ◌*◌, [], ◌∷◌, ltb, leb, le→leb, length, arith,
  true, false,
}
use lanscope.Base.Text.{Bytes}

abbrev pub Six : Type 0
Six = ℕ × ℕ × ℕ × ℕ × ℕ × ℕ

abbrev pub six : Six → Bytes → Bytes
six m rest = m.0 ∷ m.1 ∷ m.2 ∷ m.3 ∷ m.4 ∷ m.5 ∷ rest

abbrev pub Four : Type 0
Four = ℕ × ℕ × ℕ × ℕ

abbrev pub four : Four → Bytes → Bytes
four a rest = a.0 ∷ a.1 ∷ a.2 ∷ a.3 ∷ rest

-- The bytes of an Ethernet header and of the fixed part of an IPv4 header, in the order of the wire.
pub record Frame : Type 0 where
  pub dst : Six
  pub src : Six
  pub ethertype : ℕ × ℕ
  pub ver_ihl : ℕ
  pub tos : ℕ
  pub total_len : ℕ × ℕ
  pub id_and_offset : Four
  pub ttl : ℕ
  pub proto : ℕ
  pub checksum : ℕ × ℕ
  pub src_ip : Four
  pub dst_ip : Four

abbrev pub wire : Frame → Bytes → Bytes
wire f rest = six f.dst (
    six f.src (
      f.ethertype.0
      ∷ f.ethertype.1
      ∷ f.ver_ihl
      ∷ f.tos
      ∷ f.total_len.0
      ∷ f.total_len.1
      ∷ four f.id_and_offset
          (f.ttl ∷ f.proto ∷ f.checksum.0 ∷ f.checksum.1 ∷ four f.src_ip (four f.dst_ip rest))))

-- Numbers in network order.
abbrev pub two_bytes : ℕ × ℕ → ℕ
two_bytes b = b.0 * 256 + b.1

abbrev pub four_bytes : Four → ℕ
four_bytes a = a.0 * 16777216 + (a.1 * 65536 + (a.2 * 256 + a.3))

-- The length of the IPv4 header, with its options.
abbrev pub header_len : Frame → ℕ
header_len f = bit_and f.ver_ihl 0x0f * 4

pub parse_wire :
    (f : Frame) (rest : Bytes)
    → 20 ≤ header_len f
    → parse_ipv4 (wire f rest)
      ≡ some (record {
        l4 = 14 + header_len f;
        total_len = two_bytes f.total_len;
        proto = f.proto;
        src_ip = four_bytes f.src_ip;
        dst_ip = four_bytes f.dst_ip;
      })
unfolding parse_ipv4 load_u8 load_u16_be load_u32_be
parse_wire f rest whole =
    let long : ltb (header_len f) 20 ≡ false = ground (arith, whole) in rw long refl

pub parse_short : (f : Frame) (rest : Bytes) → header_len f < 20 → parse_ipv4 (wire f rest) ≡ none
unfolding parse_ipv4 load_u8 load_u16_be load_u32_be
parse_short f rest few =
    let short : ltb (header_len f) 20 ≡ true = ground (arith, few) in rw short refl

pub ethernet-wire :
    (f : Frame) (rest : Bytes) → ethernet (wire f rest) ≡ some (six f.src [], two_bytes f.ethertype)
unfolding ethernet load_mac load_u16_be load_u8
ethernet-wire f rest =
    let long : leb 12 (length (wire f rest)) ≡ true =
      le→leb 12 (length (wire f rest)) (omega arith) in
    rw long refl
