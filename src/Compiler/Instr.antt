-- ===== src/Compiler/Instr.antt =====
-- compiler/include/instructions.h, and the choice of the instructions in compiler/generator.c.
use bispe.Base.{ℕ, Bool, true, false, Bytes, codes, if◌then◌else◌}
use bispe.Compiler.Token.{TokenType, tok_eqeq, tok_neq, tok_gt, tok_lt, tok_ge, tok_le}

pub data InstrType : Type 0 where
  instr_nop instr_finish instr_push instr_print instr_load instr_store : InstrType
  instr_add instr_sub instr_mul instr_div instr_mod : InstrType
  instr_jmp instr_jeq instr_jne instr_jl instr_jle instr_jg instr_jge : InstrType
  instr_call instr_ret instr_prolog instr_epilog instr_argload : InstrType

pub record InstrInfo : Type 0 where
  pub name : Bytes
  pub has_arg : Bool
  pub opcode : ℕ

abbrev pub info : Bytes → Bool → ℕ → InstrInfo
info n a o = record { name = n; has_arg = a; opcode = o }

-- The entry of the array `instr_info` at an enumerator.
unfoldable pub instr_info : InstrType → InstrInfo
instr_info instr_nop = info (codes "nop") false 0x0
instr_info instr_finish = info (codes "finish") false 0x01
instr_info instr_push = info (codes "push") true 0x02
instr_info instr_print = info (codes "print") false 0x03
instr_info instr_load = info (codes "load") true 0x04
instr_info instr_store = info (codes "store") true 0x05
instr_info instr_add = info (codes "add") false 0x06
instr_info instr_sub = info (codes "sub") false 0x07
instr_info instr_mul = info (codes "mul") false 0x08
instr_info instr_div = info (codes "div") false 0x09
instr_info instr_mod = info (codes "mod") false 0x0A
instr_info instr_jmp = info (codes "jmp") true 0x0B
instr_info instr_jeq = info (codes "jeq") true 0x0C
instr_info instr_jne = info (codes "jne") true 0x0D
instr_info instr_jl = info (codes "jl") true 0x0E
instr_info instr_jle = info (codes "jle") true 0x0F
instr_info instr_jg = info (codes "jge") true 0x10
instr_info instr_jge = info (codes "jg") true 0x11
instr_info instr_call = info (codes "call") true 0x12
instr_info instr_ret = info (codes "ret") false 0x13
instr_info instr_prolog = info (codes "prolog") true 0x14
instr_info instr_epilog = info (codes "epilog") true 0x15
instr_info instr_argload = info (codes "argload") true 0x16

-- The words that an instruction takes.
unfoldable pub width : InstrType → ℕ
unfolding instr_info
width i = if (instr_info i).has_arg then 2 else 1

unfoldable pub boolop_to_jmp_instr : TokenType → InstrType
boolop_to_jmp_instr tok_eqeq = instr_jeq
boolop_to_jmp_instr tok_neq = instr_jne
boolop_to_jmp_instr tok_gt = instr_jg
boolop_to_jmp_instr tok_lt = instr_jl
boolop_to_jmp_instr tok_ge = instr_jge
boolop_to_jmp_instr tok_le = instr_jle
boolop_to_jmp_instr _ = instr_nop

unfoldable pub neg_jmp_instr : InstrType → InstrType
neg_jmp_instr instr_jeq = instr_jne
neg_jmp_instr instr_jne = instr_jeq
neg_jmp_instr instr_jg = instr_jle
neg_jmp_instr instr_jl = instr_jge
neg_jmp_instr instr_jge = instr_jl
neg_jmp_instr instr_jle = instr_jg
neg_jmp_instr _ = instr_nop

unfoldable pub is_ret : InstrType → Bool
is_ret instr_ret = true
is_ret _ = false
