-- ===== src/Lexer/Token.antt =====
-- src/frontend/Token.hpp
use lsm_toolchain.Prelude.{ℕ, List}

pub data TokenType : Type 0 where
  full_dev unsafe asm volatile ptr : TokenType
  set_reg get_reg cpu_halt cpu_cli cpu_sti : TokenType
  port_in port_out mmio_read mmio_write : TokenType
  reg_rax reg_rbx reg_rcx reg_rdx reg_rsi reg_rdi : TokenType
  reg_rbp reg_rsp reg_r8 reg_r9 reg_r10 reg_r11 : TokenType
  reg_r12 reg_r13 reg_r14 reg_r15 : TokenType
  inb outb inw outw inl outl : TokenType
  atomic_add atomic_sub atomic_cas atomic_load atomic_store : TokenType
  disable_interrupts enable_interrupts halt : TokenType
  true false print input fct proc rec array return : TokenType
  if else while for in_ to break continue : TokenType
  switch case default class extends this new : TokenType
  import go chan defer interface enum type : TokenType
  and or not try catch throw let_ nil slice extern : TokenType
  match ok err some none : TokenType
  hash at : TokenType
  ident int float string : TokenType
  plus plus_eq plus_plus minus minus_eq minus_minus : TokenType
  star star_eq slash slash_eq percent : TokenType
  eq eq_eq not_eq greater greater_eq less less_eq : TokenType
  amp amp_amp pipe pipe_pipe caret tilde shl shr : TokenType
  l_paren r_paren l_brace r_brace l_bracket r_bracket : TokenType
  comma dot colon semicolon question : TokenType
  fat_arrow thin_arrow chan_send_recv range range_inclusive question_safe : TokenType
  eof : TokenType

pub record Token : Type 0 where
  pub type : TokenType
  pub value : List ℕ
  pub line : ℕ
  pub col : ℕ
  pub offset : ℕ
