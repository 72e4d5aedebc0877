-- ===== src/Decode/Dns.antt =====
-- lanscope/src/decode/dns.rs: names in a DNS packet. The labels are printable ASCII, which
-- `String::from_utf8_lossy` leaves as it is.
pub mod RoundTrip
pub mod Names
pub mod Loop
use lanscope.Base.Text.{ends_with, join, is_ascii_graphic, codes, contains_str, Bytes}
use lanscope.Base.{
  nat_Eq, list_Eq, ◌++◌, nat_Eq, contains, ◌∷◌, ◌||◌, ◌&&◌, zero, not, ◌==◌, ◌+◌, true, some, none,
  leb, [], suc, slice?, length, if◌then◌else◌, get_elem?, Option, Bool, ℕ, List,
}
use Prim.Native.Nat.{bit_and}

abbrev pub is_label_byte : ℕ → Bool
is_label_byte b = is_ascii_graphic b || b == b' '

-- `label.iter().all(…)`
abbrev pub all_printable : Bytes → Bool
all_printable [] = true
all_printable (b ∷ s) = is_label_byte b && all_printable s

-- What one round of the loop of `read_name` does at `pos`.
pub data Round : Type 0 where
  fail : Round
  finish : ℕ → Round
  pointer : ℕ → Round
  label : Bytes → ℕ → Round

-- `buf.get(pos..end)?`, and the test on the label.
read_label : Bytes → ℕ → ℕ → Round
read_label buf pos len = elim (slice? buf pos len) [
  | none ↦ fail
  | some s ↦ if all_printable s then label s (pos + len) else fail
]

round_at : Bytes → ℕ → ℕ → Round
unfolding read_label
round_at buf pos len =
    if len == 0
    then finish (pos + 1)
    else if not (bit_and len 0xC0 == 0)
    then pointer (pos + 2)
    else read_label buf (pos + 1) len

unfoldable pub round : Bytes → ℕ → Round
unfolding round_at
round buf pos = elim (get_elem? buf pos) [ none ↦ fail | some len ↦ round_at buf pos len ]

-- The rest of the loop after a round; `loop` goes on from a position, with the labels so far.
continue : Round → List Bytes → (ℕ → List Bytes → Option (Bytes × ℕ)) → Option (Bytes × ℕ)
continue fail labels loop = none
continue (finish next) labels loop = some (join (b'.' ∷ []) labels, next)
continue (pointer next) [] loop = none
continue (pointer next) labels loop = some (join (b'.' ∷ []) labels, next)
continue (label s next) labels loop = loop next (labels ++ s ∷ [])

-- Every label moves `pos` on, so one round more than there are bytes is enough.
unfoldable pub read_labels : ℕ → Bytes → ℕ → List Bytes → Option (Bytes × ℕ)
unfolding continue
read_labels zero buf pos labels = none
read_labels (suc fuel) buf pos labels = continue (round buf pos) labels (read_labels fuel buf)

-- The dotted name at `start`, and the offset just past it.
unfoldable pub read_name : Bytes → ℕ → Option (Bytes × ℕ)
unfolding read_labels round
read_name buf start = read_labels (length buf + 1) buf start []

abbrev pub tcp_mark : Bytes
tcp_mark = codes "._tcp"

abbrev pub udp_mark : Bytes
udp_mark = codes "._udp"

abbrev pub local_suffix : Bytes
local_suffix = codes ".local"

unfoldable pub is_interesting : Bytes → Bool
unfolding contains_str
is_interesting name =
    (leb 3 (length name) && leb (length name) 255)
    && (ends_with name local_suffix || (contains_str name tcp_mark || contains_str name udp_mark))

-- A name that is new and interesting is kept.
keep_name : List Bytes → Option (Bytes × ℕ) → List Bytes
unfolding is_interesting
keep_name out none = out
keep_name out (some (name, next)) =
    if is_interesting name && not (contains out name) then out ++ name ∷ [] else out

-- The `while` loop of `extract_names`, with so many positions left.
names_from : ℕ → Bytes → ℕ → List Bytes → List Bytes
unfolding keep_name read_name
names_from zero buf pos out = out
names_from (suc left) buf pos out =
    names_from left buf (pos + 1) (keep_name out (read_name buf pos))

unfoldable pub extract_names : Bytes → List Bytes
unfolding names_from
extract_names buf = names_from (length buf) buf 0 []
