-- ===== src/Encode/Growing.antt =====
-- src/backend: what every step of an encoder keeps. `asm` is the code in the encoder's state.
use lsm_toolchain.Prelude.{
  ℕ, All-append, ◌≡◌, ◌%◌, ◌^◌, ap, ◌∙◌, All, if◌then◌else◌, Bool, true, false, List, [], ◌∷◌, ◌++◌,
  ◌+◌, String, length, length-append, arith,
}
use lsm_toolchain.Encode.{Patch, Code, append_bytes, append_jump, mark, ◌>>◌, when}
use lsm_toolchain.Encode.Patching.{Spaced, Spaced-snoc, Spaced-later, Spaced-le}
use lsm_toolchain.Encode.Bytes.{word_at, word_at-append, word_at-end}

-- The jump patches recorded so far lie inside the code, in order and apart, and the lowest 26
-- bits of each patched word are zero.
pub record IsSound (c : Code) : Type 0 where
  pub spaced : Spaced 0 c.patches (length c.bytes)
  pub blank : All (λ (p : Patch). word_at c.bytes p.location % 2 ^ 26 ≡ 0) c.patches

-- what is appended leaves the words of the patches alone
blank-append :
    (ps : List Patch) (lo : ℕ) (xs bs : List ℕ)
    → Spaced lo ps (length xs)
    → All (λ (p : Patch). word_at xs p.location % 2 ^ 26 ≡ 0) ps
    → All (λ (p : Patch). word_at (xs ++ bs) p.location % 2 ^ 26 ≡ 0) ps
blank-append [] lo xs bs h z = tt
blank-append (p ∷ ps) lo xs bs h z = (
  ap (λ n. n % 2 ^ 26)
        (word_at-append p.location xs bs (Spaced-le (p.location + 4) (length xs) ps h.1))
      ∙ z.0,
  blank-append ps (p.location + 4) xs bs h.1 z.1,
)

pub IsSound-append : (bs : List ℕ) (c : Code) → IsSound c → IsSound (append_bytes bs c)
unfolding append_bytes
IsSound-append bs c h = record {
  spaced =
      Spaced-later 0 (length c.bytes) (length (c.bytes ++ bs)) c.patches h.spaced
        (omega (arith, length-append c.bytes bs));
  blank = blank-append c.patches 0 c.bytes bs h.spaced h.blank;
}

pub IsSound-jump :
    (l : String) (b : Bool) (bs : List ℕ) (c : Code)
    → length bs ≡ 4
    → word_at bs 0 % 2 ^ 26 ≡ 0
    → IsSound c
    → IsSound (append_jump l b bs c)
unfolding append_jump
IsSound-jump l b bs c four zeros h = record {
  spaced =
      Spaced-snoc 0 (length c.bytes) (length (c.bytes ++ bs)) c.patches
        (record { location = length c.bytes; label = l; conditional = b }) h.spaced (omega arith)
        (omega (arith, length-append c.bytes bs));
  blank =
      All-append (λ (p : Patch). word_at (c.bytes ++ bs) p.location % 2 ^ 26 ≡ 0) c.patches _
        (blank-append c.patches 0 c.bytes bs h.spaced h.blank)
        (ap (λ n. n % 2 ^ 26) (word_at-end c.bytes bs) ∙ zeros, tt);
}

pub IsSound-mark : (l : String) (c : Code) → IsSound c → IsSound (mark l c)
unfolding mark
IsSound-mark l c h = record { spaced = h.spaced; blank = h.blank }

-- A step of an encoder that keeps a property of its state.
pub record Keeps {S : Type 0} (P : S → Type 0) (m : S → S) : Type 0 where
  pub keep : (s : S) → P s → P (m s)

module _ {S : Type 0} {P : S → Type 0} where
  pub Keeps-then : {m k : S → S} → Keeps P m → Keeps P k → Keeps P (m >> k)
  unfolding ◌>>◌
  Keeps-then {m} {k} hm hk = record { keep = λ s h. hk.keep (m s) (hm.keep s h) }

  pub Keeps-when : {m : S → S} (b : Bool) → Keeps P m → Keeps P (when b m)
  unfolding when
  Keeps-when true h = record { keep = h.keep }
  Keeps-when false h = record { keep = λ s v. v }

  pub Keeps-if : {m k : S → S} (b : Bool) → Keeps P m → Keeps P k → Keeps P (if b then m else k)
  Keeps-if true hm hk = hm
  Keeps-if false hm hk = hk

  pub Keeps-nothing : Keeps P (λ s. s)
  Keeps-nothing = record { keep = λ s h. h }
