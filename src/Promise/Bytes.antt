-- ===== src/Promise/Bytes.antt =====
-- src/hcupc_spmd-distributed-promise.cpp: the sections of the shared array of bytes, one of `count`
-- bytes for each place.
use habanero_upc.Prelude.{
  ℕ, zero, suc, ◌+◌, ◌-◌, ◌*◌, ◌≤◌, ◌<◌, ◌≡◌, ◌≢◌, refl, ◌∙◌, true, false, ◌&&◌, arith, ltb, leb,
  ℕ_discrete, dec_lt,
}
use habanero_upc.Promise.{memcpy}

section_after : (a b c : ℕ) → a < b → a * c + c ≤ b * c
section_after a zero c h = absurd (omega arith)
section_after a (suc b) c h = elim (ℕ_discrete a b) [
  | yes last ↦ rw last (omega arith)
  | no before ↦ omega (arith, section_after a b c (omega arith))
]

inside :
    (start count k : ℕ)
    → k < count
    → (leb start (start + k) && ltb (start + k) (start + count)) ≡ true
inside start count k h = ground arith

offset : (start k : ℕ) → start + k - start ≡ k
offset start k = omega arith

apart :
    (start count at other : ℕ)
    → other ≤ at
    → at < other + count
    → (other + count ≤ start)
    → (leb start at && ltb at (start + count)) ≡ false
apart start count at other h k l = ground arith

past : (start count at : ℕ) → start + count ≤ at → (leb start at && ltb at (start + count)) ≡ false
past start count at h = ground arith

memcpy-inside :
    (start count : ℕ) (bytes array : ℕ → ℕ) (k : ℕ)
    → k < count
    → memcpy start count bytes array (start + k) ≡ bytes k
unfolding memcpy
memcpy-inside start count bytes array k h = rw (inside start count k h, offset start k) refl

-- A copy to the section of place `q` leaves the other sections as they are.
memcpy-outside :
    (q r count : ℕ) (bytes array : ℕ → ℕ) (k : ℕ)
    → k < count
    → r ≢ q
    → memcpy (q * count) count bytes array (r * count + k) ≡ array (r * count + k)
unfolding memcpy
memcpy-outside q r count bytes array k h other = elim (dec_lt r q) [
  | yes below ↦
      rw
        (apart (q * count) count (r * count + k) (r * count) (omega arith) (omega arith)
          (section_after r q count below))
        refl
  | no above ↦
      rw
        (past (q * count) count (r * count + k)
          (omega (arith, section_after q r count (omega arith))))
        refl
]

-- The section of place `q` holds `bytes`.
abbrev pub Holds : ℕ → (ℕ → ℕ) → (ℕ → ℕ) → ℕ → Type 0
Holds count bytes array q = (k : ℕ) → k < count → array (q * count + k) ≡ bytes k

-- A copy of `bytes` to the section of place `q`.
pub memcpy-Holds :
    (q r count : ℕ) (bytes copied array : ℕ → ℕ)
    → ((k : ℕ) → k < count → copied k ≡ bytes k)
    → Holds count bytes array r
    → Holds count bytes (memcpy (q * count) count copied array) r
memcpy-Holds q r count bytes copied array same holds k h = elim (ℕ_discrete r q) [
  | yes here ↦ rw here (memcpy-inside (q * count) count copied array k h ∙ same k h)
  | no other ↦ memcpy-outside q r count copied array k h other ∙ holds k h
]

pub memcpy-there :
    (q count : ℕ) (bytes copied array : ℕ → ℕ)
    → ((k : ℕ) → k < count → copied k ≡ bytes k)
    → Holds count bytes (memcpy (q * count) count copied array) q
memcpy-there q count bytes copied array same k h =
    memcpy-inside (q * count) count copied array k h ∙ same k h
