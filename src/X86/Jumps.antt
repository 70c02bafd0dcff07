-- ===== src/X86/Jumps.antt =====
-- src/backend/x86_64/X86_64Encoder.cpp: where the jumps of an encoded program lead.
use lsm_toolchain.Prelude.{
  ℕ, ◌+◌, ◌≤◌, ◌<◌, ◌≡◌, ◌%◌, ◌/◌, ◌^◌, refl, ◌∙◌, ◌⊎◌, List, String, some, In, All, length, arith,
}
use lsm_toolchain.Ssa.{Function}
use lsm_toolchain.Encode.{Patch, entry, write_at}
use lsm_toolchain.Encode.Bytes.{byte_at, word_at, word_at-inside}
use lsm_toolchain.Encode.Patching.{
  Spaced-In, length-patch_all, byte_at-patch_all, word_at-patch_all,
}
use lsm_toolchain.X86.Emit.{Encoder}
use lsm_toolchain.X86.Program.{encoded, encode_program, jump_field, relative}
use lsm_toolchain.X86.SoundProgram.{IsSound-encoded}

relative-word : (p : Patch) (t : ℕ) → relative p t < 2 ^ 32
unfolding relative
relative-word p t = omega arith

relative-lands : (p : Patch) (t : ℕ) → (relative p t + p.location + 4) % 2 ^ 32 ≡ t % 2 ^ 32
unfolding relative
relative-lands p t = omega arith

length-jump_field : (p : Patch) (t : ℕ) (c : List ℕ) → length (jump_field p t c) ≡ 4
unfolding jump_field
length-jump_field p t c = refl

word_at-jump_field :
    (p : Patch) (t : ℕ) (c : List ℕ)
    → p.location + 4 ≤ length c
    → word_at (write_at p.location (jump_field p t c) c) p.location ≡ relative p t
unfolding jump_field
word_at-jump_field p t c fits =
    let r = relative p t in
    word_at-inside p.location (r % 256) (r / 256 % 256) (r / 256 / 256 % 256)
      (r / 256 / 256 / 256 % 256) c fits
    ∙ omega (arith, relative-word p t)

-- In the code of a program, each jump or call to a label that was marked holds the distance from
-- its end to the label's offset (modulo 2^32, as the processor adds it); and a byte that is in no
-- jump's distance is as it was emitted.
pub jumps_land :
    (address : List String → ℕ) (native : String → ℕ) (fs : List Function) (e : Encoder) (p : Patch)
    (t j : ℕ)
    → In p (encoded address native fs e).asm.patches
    → entry p.label (encoded address native fs e).asm.blocks ≡ some t
    → All
        (λ (q : Patch). (j < q.location) ⊎ (q.location + 4 ≤ j))
        (encoded address native fs e).asm.patches
    → ((word_at (encode_program address native fs e) p.location + p.location + 4) % 2 ^ 32
        ≡ t % 2 ^ 32)
      × (byte_at (encode_program address native fs e) j
          ≡ byte_at (encoded address native fs e).asm.bytes j)
      × (length (encode_program address native fs e)
          ≡ length (encoded address native fs e).asm.bytes)
unfolding encode_program
jumps_land address native fs e p t j m target other =
    let out = (encoded address native fs e).asm in
    let spaced = (IsSound-encoded address native fs e).spaced in
    let (_, inside) = Spaced-In 0 (length out.bytes) out.patches p spaced m in
    let (c, len, old, new) =
      word_at-patch_all jump_field out.blocks length-jump_field out.patches out.bytes 0
        (length out.bytes) t p spaced m target in
    let word = new ∙ word_at-jump_field p t c (omega (arith, len, inside)) in
    (
      omega (arith, word, relative-lands p t),
      byte_at-patch_all jump_field out.blocks length-jump_field out.patches out.bytes j other,
      length-patch_all jump_field out.blocks length-jump_field out.patches out.bytes,
    )
