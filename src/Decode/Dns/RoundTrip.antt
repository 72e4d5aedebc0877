-- ===== src/Decode/Dns/RoundTrip.antt =====
-- A name in wire format is read back, and the reader ends.
use mathlib.Core.List.{append_assoc, append-nil}
use lanscope.Base.Bits.{bit_and_0xc0}
use lanscope.Base.Text.{join, Bytes}
use lanscope.Base.{
  zero, sym, suc, slice?-append_mid, length-append, ◌/◌, slice?-append_offset, get_elem?-append_mid,
  arith, ◌≤◌, ◌+◌, true, some, [], ◌≡◌, ◌∷◌, ◌<◌, ◌++◌, length, All, ℕ, List,
}
use lanscope.Decode.Dns.{
  finish, label, round, round_at, read_label, continue, read_labels, read_name, all_printable,
}

-- A label as a client may send it: printable, and of 1 to 63 bytes.
abbrev pub IsLabel : Bytes → Type 0
IsLabel s = (0 < length s) × (length s < 64) × (all_printable s ≡ true)

-- Each label behind its length, and a zero byte.
abbrev pub encode_name : List Bytes → Bytes
encode_name [] = 0 ∷ []
encode_name (s ∷ labels) = length s ∷ (s ++ encode_name labels)

module _ (pre s rest : Bytes) where
  abbrev at_label : Bytes
  at_label = pre ++ length s ∷ (s ++ rest)

  read_label-at :
      all_printable s ≡ true
      → read_label at_label (length pre + 1) (length s) ≡ label s (length pre + 1 + length s)
  unfolding read_label
  read_label-at h =
      rw
        (
          slice?-append_offset pre (length s ∷ (s ++ rest)) 1 (length s),
          slice?-append_mid (length s ∷ []) s rest,
          read_label,
        )
        (rw h)

  round-label : IsLabel s → round at_label (length pre) ≡ label s (length pre + 1 + length s)
  unfolding round round_at
  round-label h =
      let top : length s / 64 ≡ 0 = omega arith in
      rw (get_elem?-append_mid pre (length s) (s ++ rest), round)
        (ground (arith, bit_and_0xc0 (length s) (omega arith), top, read_label-at h.2))

round-finish : (pre rest : Bytes) → round (pre ++ 0 ∷ rest) (length pre) ≡ finish (length pre + 1)
unfolding round round_at
round-finish pre rest = rw (get_elem?-append_mid pre 0 rest, round)

read_labels-encode :
    (fuel : ℕ) (pre : Bytes) (labels : List Bytes) (rest : Bytes) (out : List Bytes)
    → All IsLabel labels
    → length labels < fuel
    → read_labels fuel (pre ++ (encode_name labels ++ rest)) (length pre) out
      ≡ some (join (b'.' ∷ []) (out ++ labels), length pre + length (encode_name labels))
unfolding read_labels continue
read_labels-encode zero pre labels rest out h lt = absurd (omega arith)
read_labels-encode (suc fuel) pre [] rest out h lt = rw (round-finish pre rest) (rw append-nil)
read_labels-encode (suc fuel) pre (s ∷ labels) rest out h lt =
    let pre' = pre ++ length s ∷ s in
    let tail = encode_name labels ++ rest in
    let here : length pre + 1 + length s ≡ length pre' =
      omega (arith, length-append pre (length s ∷ s)) in
    let total : length pre + length (encode_name (s ∷ labels))
        ≡ length pre' + length (encode_name labels) =
      omega (arith, length-append pre (length s ∷ s), length-append s (encode_name labels)) in
    rw (append_assoc s (encode_name labels) rest) (
      rw (round-label pre s tail h.0) (
        rw
          (
            here,
            sym (append_assoc pre (length s ∷ s) tail),
            total,
            sym (append_assoc out (s ∷ []) labels),
          )
          (read_labels-encode fuel pre' labels rest (out ++ s ∷ []) h.1 (omega arith))))

length-labels-le : (labels : List Bytes) → length labels ≤ length (encode_name labels)
length-labels-le [] = omega arith
length-labels-le (s ∷ labels) =
    omega (arith, length-labels-le labels, length-append s (encode_name labels))

-- A name of printable labels of 1 to 63 bytes in wire format, anywhere in a packet, is read as its labels with dots between them, and
-- the reader stops just past its end.
pub read_name-encode :
    (pre : Bytes) (labels : List Bytes) (rest : Bytes)
    → All IsLabel labels
    → read_name (pre ++ (encode_name labels ++ rest)) (length pre)
      ≡ some (join (b'.' ∷ []) labels, length pre + length (encode_name labels))
unfolding read_name
read_name-encode pre labels rest h = read_labels-encode _ pre labels rest [] h (
    omega (
      arith,
      length-labels-le labels,
      length-append pre (encode_name labels ++ rest),
      length-append (encode_name labels) rest,
    ))
