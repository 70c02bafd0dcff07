-- ===== src/Lexer/Keywords.antt =====
-- src/frontend/lexer/Lexer.cpp: the words with a token type of their own, in the source's order.
use lsm_toolchain.Prelude.{ℕ, Bool, true, false, ◌&&◌, ◌==◌, List, [], ◌∷◌, String, if◌then◌else◌}
use lsm_toolchain.Lexer.Token.{TokenType}
use lsm_toolchain.Lexer.Chars.{bytes}

abbrev pub same_bytes : List ℕ → List ℕ → Bool
same_bytes [] [] = true
same_bytes [] (y ∷ ys) = false
same_bytes (x ∷ xs) [] = false
same_bytes (x ∷ xs) (y ∷ ys) = (x == y) && same_bytes xs ys

abbrev pub keywords : List (String × TokenType)
keywords =
    ("fulldev", TokenType.full_dev)
    ∷ ("unsafe", TokenType.unsafe)
    ∷ ("asm", TokenType.asm)
    ∷ ("volatile", TokenType.volatile)
    ∷ ("ptr", TokenType.ptr)
    ∷ ("setreg", TokenType.set_reg)
    ∷ ("getreg", TokenType.get_reg)
    ∷ ("cpu_halt", TokenType.cpu_halt)
    ∷ ("halt", TokenType.cpu_halt)
    ∷ ("cpu_cli", TokenType.cpu_cli)
    ∷ ("cli", TokenType.cpu_cli)
    ∷ ("cpu_sti", TokenType.cpu_sti)
    ∷ ("sti", TokenType.cpu_sti)
    ∷ ("port_in", TokenType.port_in)
    ∷ ("port_out", TokenType.port_out)
    ∷ ("mmio_read", TokenType.mmio_read)
    ∷ ("mmio_write", TokenType.mmio_write)
    ∷ ("rax", TokenType.reg_rax)
    ∷ ("rbx", TokenType.reg_rbx)
    ∷ ("rcx", TokenType.reg_rcx)
    ∷ ("rdx", TokenType.reg_rdx)
    ∷ ("rsi", TokenType.reg_rsi)
    ∷ ("rdi", TokenType.reg_rdi)
    ∷ ("rbp", TokenType.reg_rbp)
    ∷ ("rsp", TokenType.reg_rsp)
    ∷ ("r8", TokenType.reg_r8)
    ∷ ("r9", TokenType.reg_r9)
    ∷ ("r10", TokenType.reg_r10)
    ∷ ("r11", TokenType.reg_r11)
    ∷ ("r12", TokenType.reg_r12)
    ∷ ("r13", TokenType.reg_r13)
    ∷ ("r14", TokenType.reg_r14)
    ∷ ("r15", TokenType.reg_r15)
    ∷ ("inb", TokenType.inb)
    ∷ ("outb", TokenType.outb)
    ∷ ("inw", TokenType.inw)
    ∷ ("outw", TokenType.outw)
    ∷ ("inl", TokenType.inl)
    ∷ ("outl", TokenType.outl)
    ∷ ("atomic_add", TokenType.atomic_add)
    ∷ ("atomic_sub", TokenType.atomic_sub)
    ∷ ("atomic_cas", TokenType.atomic_cas)
    ∷ ("atomic_load", TokenType.atomic_load)
    ∷ ("atomic_store", TokenType.atomic_store)
    ∷ ("true", TokenType.true)
    ∷ ("false", TokenType.false)
    ∷ ("print", TokenType.print)
    ∷ ("input", TokenType.input)
    ∷ ("fct", TokenType.fct)
    ∷ ("proc", TokenType.proc)
    ∷ ("rec", TokenType.rec)
    ∷ ("array", TokenType.array)
    ∷ ("return", TokenType.return)
    ∷ ("if", TokenType.if)
    ∷ ("else", TokenType.else)
    ∷ ("while", TokenType.while)
    ∷ ("for", TokenType.for)
    ∷ ("in", TokenType.in_)
    ∷ ("to", TokenType.to)
    ∷ ("break", TokenType.break)
    ∷ ("continue", TokenType.continue)
    ∷ ("switch", TokenType.switch)
    ∷ ("case", TokenType.case)
    ∷ ("default", TokenType.default)
    ∷ ("class", TokenType.class)
    ∷ ("extends", TokenType.extends)
    ∷ ("this", TokenType.this)
    ∷ ("new", TokenType.new)
    ∷ ("import", TokenType.import)
    ∷ ("extern", TokenType.extern)
    ∷ ("go", TokenType.go)
    ∷ ("chan", TokenType.chan)
    ∷ ("defer", TokenType.defer)
    ∷ ("interface", TokenType.interface)
    ∷ ("enum", TokenType.enum)
    ∷ ("type", TokenType.type)
    ∷ ("and", TokenType.and)
    ∷ ("or", TokenType.or)
    ∷ ("not", TokenType.not)
    ∷ ("try", TokenType.try)
    ∷ ("catch", TokenType.catch)
    ∷ ("throw", TokenType.throw)
    ∷ ("let", TokenType.let_)
    ∷ ("nil", TokenType.nil)
    ∷ ("slice", TokenType.slice)
    ∷ ("match", TokenType.match)
    ∷ ("Ok", TokenType.ok)
    ∷ ("Err", TokenType.err)
    ∷ ("Some", TokenType.some)
    ∷ ("None", TokenType.none)
    ∷ []

-- the chain of comparisons, over the part of the table that is left
unfoldable pub word_type : List (String × TokenType) → List ℕ → TokenType
word_type [] id = TokenType.ident
word_type ((word, t) ∷ table) id =
    let later = word_type table id in if same_bytes id (bytes word) then t else later
