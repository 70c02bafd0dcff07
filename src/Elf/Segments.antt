-- ===== src/Elf/Segments.antt =====
-- src/backend/linker/ELFBuilder.cpp: a segment's bytes stand where its program header says.
use mathlib.Core.List.{append_assoc}
use lsm_toolchain.Prelude.{
  ℕ, ◌+◌, ◌*◌, ◌%◌, ◌^◌, ◌<◌, ◌≡◌, refl, sym, ap, ◌∙◌, some, List, [], ◌∷◌, ◌++◌, length,
  length-append, take, arith,
}
use lsm_toolchain.Ssa.{ArchType}
use lsm_toolchain.Elf.{
  Segment, to_u32, ehdr_size, phdr_size, elf_header, program_header, program_headers, contents,
  build_executable,
}
use lsm_toolchain.Elf.Fields.{drop, read, take-append, drop_at, drop_add, read-le_4}

abbrev pub size : List Segment → ℕ
size ss = length (contents ss)

length-elf_header : (arch : ArchType) (e n : ℕ) → length (elf_header arch e n) ≡ ehdr_size
unfolding elf_header
length-elf_header arch e n = refl

length-program_header : (s : Segment) (o : ℕ) → length (program_header s o) ≡ phdr_size
unfolding program_header
length-program_header s o = refl

length-program_headers :
    (o : ℕ) (ss : List Segment) → length (program_headers o ss) ≡ phdr_size * length ss
unfolding program_headers
length-program_headers o [] = refl
length-program_headers o (s ∷ ss) = omega (
  arith,
  length-append (program_header s o) (program_headers (to_u32 (o + length s.bytes)) ss),
  length-program_header s o,
  length-program_headers (to_u32 (o + length s.bytes)) ss,
)

contents-append : (xs ys : List Segment) → contents (xs ++ ys) ≡ contents xs ++ contents ys
contents-append [] ys = refl
contents-append (x ∷ xs) ys =
    ap (λ r. x.bytes ++ r) (contents-append xs ys)
    ∙ sym (append_assoc x.bytes (contents xs) (contents ys))

headers-step :
    (o m : ℕ) (x : Segment) (ss : List Segment)
    → to_u32 (o + length x.bytes) ≡ m
    → program_headers o (x ∷ ss) ≡ program_header x o ++ program_headers m ss
unfolding program_headers
headers-step o m x ss e = ap (λ n. program_header x o ++ program_headers n ss) e

-- the header of one segment among the others, where no offset wraps
headers-split :
    (o : ℕ) (front : List Segment) (s : Segment) (back : List Segment)
    → o + size front < 2 ^ 32
    → (rest : List ℕ) × (program_headers o (front ++ (s ∷ back))
        ≡ program_headers o front ++ (program_header s (o + size front) ++ rest))
headers-split o [] s back lt =
    let same : o ≡ o + 0 = omega arith in
    (
      program_headers (to_u32 (o + length s.bytes)) back,
      headers-step o (to_u32 (o + length s.bytes)) s back refl
          ∙ ap (λ n. program_header s n ++ program_headers (to_u32 (o + length s.bytes)) back) same
          ∙ ap
              (λ r.
                r
                ++ (program_header s (o + 0) ++ program_headers (to_u32 (o + length s.bytes)) back))
              (sym (headers-none o)),
    )
  where
    headers-none : (o : ℕ) → program_headers o [] ≡ []
    headers-none o = unfold program_headers in refl
headers-split o (x ∷ front) s back lt =
    let total = length-append x.bytes (contents front) in
    let m = o + length x.bytes in
    let fits : m % 2 ^ 32 ≡ m = omega (arith, total) in
    let (rest, e) = headers-split m front s back (omega (arith, total)) in
    let there : m + size front ≡ o + size (x ∷ front) = omega (arith, total) in
    (
      rest,
      headers-step o m x (front ++ (s ∷ back)) fits
          ∙ ap (λ r. program_header x o ++ r) e
          ∙ sym (
              append_assoc (program_header x o) (program_headers m front)
                (program_header s (m + size front) ++ rest))
          ∙ ap (λ r. r ++ (program_header s (m + size front) ++ rest))
              (sym (headers-step o m x front fits))
          ∙ ap (λ n. program_headers o (x ∷ front) ++ (program_header s n ++ rest)) there,
    )

pub layout :
    (ss : List Segment) (entry : ℕ) (arch : ArchType) (file : List ℕ)
    → build_executable ss entry arch ≡ some file
    → file
      ≡ elf_header arch entry (length ss)
        ++ (program_headers (to_u32 (ehdr_size + phdr_size * length ss)) ss ++ contents ss)
unfolding build_executable
layout [] entry arch file e = cc
layout (s ∷ ss) entry arch file e = cc

module _ (front : List Segment) (s : Segment) (back : List Segment) (entry : ℕ) (arch : ArchType)
    (file : List ℕ) (built : build_executable (front ++ (s ∷ back)) entry arch ≡ some file)
    (fits : ehdr_size + phdr_size * length (front ++ (s ∷ back)) + size (front ++ (s ∷ back))
      < 2 ^ 32) where
  abbrev ss : List Segment
  ss = front ++ (s ∷ back)

  abbrev start : ℕ
  start = ehdr_size + phdr_size * length ss

  abbrev head : List ℕ
  head = elf_header arch entry (length ss)

  sizes : size ss ≡ size front + (length s.bytes + size back)
  sizes =
      ap length (contents-append front (s ∷ back))
      ∙ length-append (contents front) (s.bytes ++ contents back)
      ∙ ap (λ n. size front + n) (length-append s.bytes (contents back))

  whole : file ≡ head ++ (program_headers start ss ++ contents ss)
  whole =
      layout ss entry arch file built
      ∙ ap (λ o. head ++ (program_headers o ss ++ contents ss)) (omega (arith, fits))

  header_at :
      (rest : List ℕ) × (drop (ehdr_size + phdr_size * length front) file
        ≡ program_header s (start + size front) ++ rest)
  header_at =
      let (rest, e) = headers-split start front s back (omega (arith, fits, sizes)) in
      let before = head ++ program_headers start front in
      let own = program_header s (start + size front) in
      let shape : file ≡ before ++ (own ++ (rest ++ contents ss)) =
        whole
        ∙ ap (λ r. head ++ (r ++ contents ss)) e
        ∙ ap (λ r. head ++ r)
            (append_assoc (program_headers start front) (own ++ rest) (contents ss))
        ∙ ap (λ r. head ++ (program_headers start front ++ r)) (append_assoc own rest (contents ss))
        ∙ sym (append_assoc head (program_headers start front) (own ++ (rest ++ contents ss))) in
      (
        rest ++ contents ss,
        drop_at file before (own ++ (rest ++ contents ss)) (ehdr_size + phdr_size * length front)
            shape
            (omega (
              arith,
              length-append head (program_headers start front),
              length-elf_header arch entry (length ss),
              length-program_headers start front,
            )),
      )

  bytes_at : drop (start + size front) file ≡ s.bytes ++ contents back
  bytes_at =
      let before = head ++ (program_headers start ss ++ contents front) in
      let shape : file ≡ before ++ (s.bytes ++ contents back) =
        whole
        ∙ ap (λ r. head ++ (program_headers start ss ++ r)) (contents-append front (s ∷ back))
        ∙ ap (λ r. head ++ r)
            (sym
              (append_assoc (program_headers start ss) (contents front) (s.bytes ++ contents back)))
        ∙ sym (
            append_assoc head (program_headers start ss ++ contents front)
              (s.bytes ++ contents back)) in
      drop_at file before (s.bytes ++ contents back) (start + size front) shape (
        omega (
          arith,
          length-append head (program_headers start ss ++ contents front),
          length-append (program_headers start ss) (contents front),
          length-elf_header arch entry (length ss),
          length-program_headers start ss,
        ))

  abbrev field : ℕ → ℕ
  field j = read 4 (drop (ehdr_size + phdr_size * length front + j) file)

  field_lem :
      (j : ℕ) → field j ≡ read 4 (drop j (program_header s (start + size front) ++ header_at.0))
  field_lem j =
      ap (read 4) (drop_add (ehdr_size + phdr_size * length front) j file ∙ ap (drop j) header_at.1)

  -- Of the file that is built of segments, all of it shorter than four gigabytes, a segment's
  -- program header gives its address (its low 32 bits) and its length, and the bytes of that
  -- length at the offset that the header gives are the segment's.
  pub segment_found :
      (read 4 (drop (ehdr_size + phdr_size * length front + 8) file) ≡ to_u32 s.vaddr)
      × (read 4 (drop (ehdr_size + phdr_size * length front + 16) file) ≡ length s.bytes)
      × (take
            (length s.bytes)
            (drop (read 4 (drop (ehdr_size + phdr_size * length front + 4) file)) file)
          ≡ s.bytes)
  unfolding program_header
  segment_found =
      let o = start + size front in
      let r = header_at.0 in
      let small : o < 2 ^ 32 = omega (arith, fits, sizes) in
      let offset : field 4 ≡ o = field_lem 4 ∙ read-le_4 o [] small in
      (
        field_lem 8 ∙ read-le_4 (to_u32 s.vaddr) [] (omega arith),
        field_lem 16
            ∙ read-le_4 (to_u32 (length s.bytes)) [] (omega arith)
            ∙ omega (arith, fits, sizes),
        ap (λ k. take (length s.bytes) (drop k file)) offset
            ∙ ap (take (length s.bytes)) bytes_at
            ∙ take-append s.bytes (contents back),
      )
