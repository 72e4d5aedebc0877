-- ===== src/Decode/Dhcp/Truncated.antt =====
-- Options of which only the first bytes are there.
use mathlib.Core.List.{append_assoc}
use lanscope.Decode.Dhcp.{magic_cookie, decode, option_body, option_data, round, opt_pad, opt_end}
use native.Mathlib.Nat.{add_assoc}
use lanscope.Base.Text.{Bytes}
use lanscope.Decode.Dhcp.RoundTrip.{
  decode-options, signals_of, message, round_end, encode_options, IsOption, Stops,
}
use lanscope.Base.{
  ◌≤◌, length-take, zero, ◌++◌, slice?-append_offset, none, suc, slice?, get_elem?-append_offset,
  get_elem?-append_mid, leb, if◌then◌else◌, ◌+◌, ◌<◌, ◌-◌, ◌∷◌, length, ◌≢◌, [], List, ℕ, arith, ap,
  sym, refl, ◌≡◌, ◌∙◌, inl, inr, Bool-cases, take, take-append_add, All,
}

-- The options that lie wholly in so many bytes, up to the first that does not.
abbrev pub fitting : ℕ → List (ℕ × Bytes) → List (ℕ × Bytes)
fitting n [] = []
fitting n ((opt, bytes) ∷ opts) =
    let rest = fitting (n - (2 + length bytes)) opts in
    if leb (2 + length bytes) n then (opt, bytes) ∷ rest else []

nil-Stops : Stops []
unfolding round
nil-Stops pre = ground (arith, get_elem?-append_offset pre [] 0)

-- An option of which the length is missing, and one of which a part of the contents is.
code-Stops : (opt : ℕ) → opt ≢ opt_pad → Stops (opt ∷ [])
unfolding round option_body
code-Stops opt no_pad pre =
    rw (get_elem?-append_mid pre opt [], round)
      (ground (arith, no_pad, get_elem?-append_offset pre (opt ∷ []) 1))

slice?-short :
    (opt len : ℕ) (some_of : Bytes)
    → length some_of < len
    → slice? (opt ∷ len ∷ some_of) 2 len ≡ none
slice?-short opt len some_of lt = ground (arith, lt)

cut-Stops :
    (opt len : ℕ) (some_of : Bytes)
    → opt ≢ opt_pad
    → length some_of < len
    → Stops (opt ∷ len ∷ some_of)
unfolding round option_body option_data
cut-Stops opt len some_of no_pad lt pre =
    rw (get_elem?-append_mid pre opt (len ∷ some_of), round)
      (ground (
        arith,
        no_pad,
        get_elem?-append_offset pre (opt ∷ len ∷ some_of) 1,
        add_assoc (length pre) 1 1,
        slice?-append_offset pre (opt ∷ len ∷ some_of) 2 len ∙ slice?-short opt len some_of lt,
      ))

abbrev IsCut : ℕ → List (ℕ × Bytes) → Bytes → Type 0
IsCut n opts rest =
    (tail : Bytes) × Stops tail
    × (take n (encode_options opts ++ opt_end ∷ rest) ≡ encode_options (fitting n opts) ++ tail)

take_end : (n : ℕ) (rest : Bytes) → IsCut n [] rest
take_end zero rest = ([], nil-Stops, refl)
take_end (suc n) rest = (opt_end ∷ take n rest, λ pre. round_end pre (take n rest), refl)

take_fits :
    (n opt : ℕ) (bytes behind : Bytes)
    → 2 + length bytes ≤ n
    → take n (opt ∷ length bytes ∷ (bytes ++ behind))
      ≡ opt ∷ length bytes ∷ (bytes ++ take (n - (2 + length bytes)) behind)
take_fits zero opt bytes behind le = absurd (omega (arith, le))
take_fits (suc zero) opt bytes behind le = absurd (omega (arith, le))
take_fits (suc (suc k)) opt bytes behind le =
    let room = k - length bytes in
    let all : k ≡ length bytes + room = omega (arith, le) in
    let same : suc (suc k) - (2 + length bytes) ≡ room = omega (arith, le) in
    ap (λ s. opt ∷ length bytes ∷ s)
      (ap (λ m. take m (bytes ++ behind)) all
        ∙ take-append_add bytes behind room
        ∙ ap (λ m. bytes ++ take m behind) (sym same))

take-Stops :
    (n opt : ℕ) (bytes behind : Bytes)
    → opt ≢ opt_pad
    → n < 2 + length bytes
    → Stops (take n (opt ∷ length bytes ∷ (bytes ++ behind)))
take-Stops zero opt bytes behind no_pad lt = nil-Stops
take-Stops (suc zero) opt bytes behind no_pad lt = code-Stops opt no_pad
take-Stops (suc (suc k)) opt bytes behind no_pad lt =
    cut-Stops opt (length bytes) (take k (bytes ++ behind)) no_pad
      (omega (arith, lt, length-take k (bytes ++ behind)))

-- The first bytes of the options are the options that fit, and bytes at which the loop stops.
take-encode :
    (n : ℕ) (opts : List (ℕ × Bytes)) (rest : Bytes) → All IsOption opts → IsCut n opts rest
take-encode n [] rest h = take_end n rest
take-encode n ((opt, bytes) ∷ opts) rest h =
    let behind = encode_options opts ++ opt_end ∷ rest in
    let assoc = append_assoc bytes (encode_options opts) (opt_end ∷ rest) in
    elim (Bool-cases (leb (2 + length bytes) n)) [
      | inl fits ↦
          let (tail, stops, eq) = take-encode (n - (2 + length bytes)) opts rest h.1 in
          (
            tail,
            stops,
            rw (fits, assoc)
                (take_fits n opt bytes behind (ground (arith, fits))
                  ∙ ap (λ s. opt ∷ length bytes ∷ (bytes ++ s)) eq
                  ∙ ap (λ s. opt ∷ length bytes ∷ s)
                      (sym (
                        append_assoc bytes (encode_options (fitting (n - (2 + length bytes)) opts))
                          tail))),
          )
      | inr cut ↦ (
        take n (opt ∷ length bytes ∷ (bytes ++ behind)),
        take-Stops n opt bytes behind h.0.0 (ground (arith, cut)),
        rw (cut, assoc) refl,
      )
    ]

fitting-IsOption :
    (n : ℕ) (opts : List (ℕ × Bytes)) → All IsOption opts → All IsOption (fitting n opts)
fitting-IsOption n [] h = tt
fitting-IsOption n ((opt, bytes) ∷ opts) h = elim (Bool-cases (leb (2 + length bytes) n)) [
  | inl fits ↦ rw fits (h.0, fitting-IsOption (n - (2 + length bytes)) opts h.1)
  | inr cut ↦ rw cut tt
]

-- Where only the first bytes of a message are there, and the cookie is among them: the options that
-- lie in them as a whole are read, in order, up to the first that does not.
pub decode-take :
    (header : Bytes) (opts : List (ℕ × Bytes)) (rest : Bytes) (room : ℕ)
    → All (λ c. c ≢ 0x63) header
    → All IsOption opts
    → decode (take (length header + (4 + room)) (message header opts rest))
      ≡ signals_of (fitting room opts)
decode-take header opts rest room clean h =
    let (tail, stops, eq) = take-encode room opts rest h in
    ap decode (
      take-append_add header (magic_cookie ++ (encode_options opts ++ opt_end ∷ rest)) (4 + room)
      ∙ ap (λ s. header ++ s)
          (take-append_add magic_cookie (encode_options opts ++ opt_end ∷ rest) room)
      ∙ ap (λ s. header ++ (magic_cookie ++ s)) eq)
    ∙ decode-options header (fitting room opts) tail clean stops (fitting-IsOption room opts h)
