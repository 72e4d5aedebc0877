-- ===== src/Kernel/Events.antt =====
-- What userspace reads of an event that the kernel wrote.
use lanscope.Common.{MacAddr}
use lanscope.Common.Event.{event_payload_len, EventKind, valid_payload}
use lanscope.Base.{
  take-append, sym, ap, ◌∙◌, take_of_length-le, refl, min, length-drop, Option-cases, ◌^◌, ltb, inr,
  ◌%◌, inl, if◌then◌else◌, Bool-cases, arith, ◌-◌, ◌⊎◌, [], length, ◌≤◌, drop, take, some, ◌≡◌, ℕ,
}
use lanscope.Base.Text.{Bytes}
use lanscope.Kernel.{copy_len, written, copied_payload, Kernel}

module _ (k : Kernel) where
  open k use {load_bytes}

  -- `bpf_xdp_load_bytes` copies the bytes of the packet that are asked for, or fails.
  abbrev pub IsLoad : Type 0
  IsLoad =
      (packet : Bytes) (off n : ℕ) (bytes : Bytes)
      → load_bytes packet off n ≡ some bytes
      → (bytes ≡ take n (drop off packet)) × (length bytes ≡ n)

  abbrev pub to_copy : Bytes → ℕ → ℕ
  to_copy packet off =
      let avail = length packet - off in if ltb copy_len avail then copy_len else avail

  pub to_copy-le : (packet : Bytes) (off : ℕ) → to_copy packet off ≤ copy_len
  to_copy-le packet off = ground arith

  pub take-to_copy :
      (packet : Bytes) (off : ℕ)
      → take (to_copy packet off) (drop off packet) ≡ take copy_len (drop off packet)
  take-to_copy packet off = elim (Bool-cases (ltb copy_len (length packet - off))) [
    | inl more ↦ rw more refl
    | inr all ↦
        let all_of = length-drop off packet in
        rw all (
          take_of_length-le (length packet - off) (drop off packet) (omega (arith, all_of))
          ∙ sym (take_of_length-le copy_len (drop off packet) (ground (arith, all_of, all))))
  ]

  -- What is copied: nothing, or as many bytes as there are behind the offset, up to 256.
  copied_payload-cases :
      (packet : Bytes) (off : ℕ)
      → IsLoad
      → (copied_payload k packet (some off) ≡ (0, []))
        ⊎ ((n : ℕ) × (n ≤ copy_len)
            × (length (take copy_len (drop off packet)) ≡ n)
            × (copied_payload k packet (some off) ≡ (n, take copy_len (drop off packet))))
  unfolding copied_payload
  copied_payload-cases packet off load = elim (Bool-cases (ltb off (length packet))) [
    | inl inside ↦ elim (Option-cases (load_bytes packet off (to_copy packet off))) [
      | inl failed ↦ rw (inside, failed) (inl refl)
      | inr (bytes, loaded) ↦
          let (eq, len) = load packet off (to_copy packet off) bytes loaded in
          let first = eq ∙ take-to_copy packet off in
          rw (inside, loaded)
            (inr (
              to_copy packet off,
              to_copy-le packet off,
              ap length (sym first) ∙ len,
              ap (λ b. (to_copy packet off, b)) first,
            ))
    ]
    | inr outside ↦ rw outside (inl refl)
  ]

  pub valid_payload-copied :
      (slot bytes : Bytes) (kind : EventKind) (mac : MacAddr) (src_ip n : ℕ)
      → n ≤ copy_len
      → length bytes ≡ n
      → let ev = written k slot kind mac src_ip (n, bytes) in
        (ev.payload_len ≤ copy_len) × (valid_payload ev ≡ bytes)
  unfolding valid_payload
  valid_payload-copied slot bytes kind mac src_ip n le h =
      let short : n % 2 ^ 16 ≡ n = omega (arith, le) in
      let all : min (n % 2 ^ 16) event_payload_len ≡ length bytes = omega (arith, le, h) in
      (omega (arith, le, short), rw all (take-append bytes (drop (length bytes) slot)))

  -- Where the helper copies what it is asked for, the payload that userspace reads of an event is
  -- empty, or the first 256 bytes of the packet behind the offset, or all of them if there are
  -- fewer; whatever the slot held before.
  pub valid_payload-written :
      (packet slot : Bytes) (kind : EventKind) (mac : MacAddr) (src_ip off : ℕ)
      → IsLoad
      → let ev = written k slot kind mac src_ip (copied_payload k packet (some off)) in
        (ev.payload_len ≤ copy_len)
        × ((valid_payload ev ≡ []) ⊎ (valid_payload ev ≡ take copy_len (drop off packet)))
  valid_payload-written packet slot kind mac src_ip off load =
      elim (copied_payload-cases packet off load) [
        | inl nothing ↦
            let both = valid_payload-copied slot [] kind mac src_ip 0 (omega arith) refl in
            rw nothing (both.0, inl both.1)
        | inr (n, le, len, some_bytes) ↦
            let both =
              valid_payload-copied slot (take copy_len (drop off packet)) kind mac src_ip n le
                len in
            rw some_bytes (both.0, inr both.1)
      ]
