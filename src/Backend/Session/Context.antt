-- ===== src/Backend/Session/Context.antt =====
-- The context of a run, in the build with encryption: create_runtime_ctx, init_interpreter and
-- cleanup_runtime_ctx of backend/bispe_interpreter.c, and the structures of include/bispe_comm.h.
-- An address of user space is a number. The memory of the context itself is the whole page that
-- vzalloc hands out.
use bispe.Base.{
  Bool, false, ◌&&◌, leb, ◌%◌, ◌^◌, ℕ, ◌+◌, ◌-◌, ◌*◌, ◌/◌, Option, none, some, List, [], ◌∷◌, ltb,
  if◌then◌else◌, ◌>>=◌, ◌>>◌, pure, crash, change,
}
use bispe.Backend.Session.Kernel.{
  Pointer, Kernel, Env, M, vmalloc, vfree, amalloc, afree, write_words, shadow, unshadow,
  static_size,
}

pub record BufInfo : Type 0 where
  pub ptr : ℕ
  pub size : ℕ

pub record InvokeCtx : Type 0 where
  pub stack_size : ℕ
  pub call_size : ℕ
  pub ipc : ℕ
  pub code_buf : BufInfo
  pub arg_buf : BufInfo
  pub result : ℕ
  pub out_buf : BufInfo

-- The context, with the block that it stands in.
pub record RuntimeCtx : Type 0 where
  pub block : ℕ
  pub code_seg_bp : Option Pointer
  pub stack_seg_bp : Option Pointer
  pub call_seg_bp : Option Pointer
  pub print_seg_bp : Option Pointer
  pub code_seg_size : ℕ
  pub stack_seg_size : ℕ
  pub call_seg_size : ℕ
  pub print_seg_size : ℕ
  pub argc : ℕ
  pub argv : Option Pointer
  pub ipc : ℕ

-- A buffer in the kernel.
pub record KernelBuf : Type 0 where
  pub ptr : Option Pointer
  pub size : ℕ

abbrev pub default_stack_size : ℕ
default_stack_size = 20

abbrev pub default_call_size : ℕ
default_call_size = 20

abbrev pub default_print_size : ℕ
default_print_size = 20

abbrev pub default_instr_per_cycle : ℕ
default_instr_per_cycle = 2000

-- `(given > 0) ? given : other`
abbrev pub or_default : ℕ → ℕ → ℕ
or_default given other = if ltb 0 given then given else other

unfoldable pub free_segments : RuntimeCtx → M (Unit {0})
unfolding afree
free_segments ctx = do
  afree ctx.code_seg_bp
  afree ctx.stack_seg_bp
  afree ctx.call_seg_bp
  afree ctx.print_seg_bp
  afree ctx.argv

-- The pointers are moved back to where they were allocated.
unfoldable pub cleanup_runtime_ctx : Option RuntimeCtx → M (Unit {0})
unfolding free_segments vfree
cleanup_runtime_ctx none = pure tt
cleanup_runtime_ctx (some ctx) = do
  free_segments (record ctx {
    code_seg_bp = unshadow 4 ctx.code_seg_bp;
    stack_seg_bp = unshadow 4 ctx.stack_seg_bp;
    call_seg_bp = unshadow 4 ctx.call_seg_bp;
  })
  vfree ctx.block

-- The label `error`, with a context.
unfoldable pub give_up : RuntimeCtx → M (Option RuntimeCtx)
unfolding free_segments vfree
give_up ctx = do free_segments ctx; vfree ctx.block; pure none

-- The fields that are set before the segments are allocated; the others are zero.
unfoldable pub configured : InvokeCtx → KernelBuf → KernelBuf → ℕ → RuntimeCtx
configured invoke_ctx code_buf arg_buf block = record {
  block = block;
  code_seg_bp = code_buf.ptr;
  stack_seg_bp = none;
  call_seg_bp = none;
  print_seg_bp = none;
  code_seg_size = code_buf.size;
  stack_seg_size = or_default invoke_ctx.stack_size default_stack_size * (4 * 4) + 16;
  call_seg_size = or_default invoke_ctx.call_size default_call_size * (4 * 4) + 16;
  print_seg_size = or_default invoke_ctx.out_buf.size default_print_size;
  argc = arg_buf.size / 4;
  argv = if ltb 0 (arg_buf.size / 4) then arg_buf.ptr else none;
  ipc = or_default invoke_ctx.ipc default_instr_per_cycle;
}

-- `get_random_bytes(ptr, 16)`
abbrev pub get_random_bytes : Env → Option Pointer → M (Unit {0})
get_random_bytes env none = crash
get_random_bytes env (some p) = change λ k.
    write_words p.block
      (env.random p.block 0
        ∷ env.random p.block 1
        ∷ env.random p.block 2
        ∷ env.random p.block 3
        ∷ [])
      k

-- The initialisation vectors are written, and hidden in front of the segments. The code has the size
-- that user space gives, and the size of an empty one wraps around.
unfoldable pub shadowed : Env → RuntimeCtx → M (Option RuntimeCtx)
shadowed env ctx = do
  get_random_bytes env ctx.stack_seg_bp
  get_random_bytes env ctx.call_seg_bp
  pure (
      some (record ctx {
        code_seg_bp = shadow 4 ctx.code_seg_bp;
        stack_seg_bp = shadow 4 ctx.stack_seg_bp;
        call_seg_bp = shadow 4 ctx.call_seg_bp;
        code_seg_size = (ctx.code_seg_size + 2 ^ 64 - 16) % 2 ^ 64;
        stack_seg_size = ctx.stack_seg_size - 16;
        call_seg_size = ctx.call_seg_size - 16;
      }))

-- The three allocations. Each asks for the size that the static variable holds.
unfoldable pub with_print : Env → RuntimeCtx → Option Pointer → M (Option RuntimeCtx)
unfolding give_up shadowed
with_print env ctx none = give_up ctx
with_print env ctx (some p) = shadowed env (record ctx { print_seg_bp = some p })

unfoldable pub with_call : Env → RuntimeCtx → Option Pointer → M (Option RuntimeCtx)
unfolding give_up with_print amalloc
with_call env ctx none = give_up ctx
with_call env ctx (some p) = do
  size ← static_size λ vm. vm.print_size
  amalloc env size >>= with_print env (record ctx { call_seg_bp = some p })

unfoldable pub with_stack : Env → RuntimeCtx → Option Pointer → M (Option RuntimeCtx)
unfolding give_up with_call amalloc
with_stack env ctx none = give_up ctx
with_stack env ctx (some p) = do
  size ← static_size λ vm. vm.call_size
  amalloc env size >>= with_call env (record ctx { stack_seg_bp = some p })

unfoldable pub with_ctx : Env → InvokeCtx → KernelBuf → KernelBuf → Option ℕ → M (Option RuntimeCtx)
unfolding configured with_stack amalloc
with_ctx env invoke_ctx code_buf arg_buf none = crash
with_ctx env invoke_ctx code_buf arg_buf (some block) = do
  size ← static_size λ vm. vm.stack_size
  amalloc env size >>= with_stack env (configured invoke_ctx code_buf arg_buf block)

unfoldable pub create_runtime_ctx : Env → InvokeCtx → KernelBuf → KernelBuf → M (Option RuntimeCtx)
unfolding vmalloc with_ctx
create_runtime_ctx env invoke_ctx code_buf arg_buf =
    vmalloc env 8 >>= with_ctx env invoke_ctx code_buf arg_buf

-- A block whose copy fails is not freed.
abbrev pub copied_to : Pointer → Option (List ℕ) → M (Option Pointer)
copied_to p none = pure none
copied_to p (some words) = do change (write_words p.block words); pure (some p)

-- Behind `amalloc`.
abbrev pub copy_from_user : Env → ℕ → ℕ → Option Pointer → M (Option Pointer)
copy_from_user env src size none = pure none
copy_from_user env src size (some p) = copied_to p (env.user src size)

unfoldable pub get_buf_from_user : Env → ℕ → ℕ → M (Option Pointer)
unfolding amalloc
get_buf_from_user env src size = amalloc env size >>= copy_from_user env src size

-- Behind the copy of the arguments.
unfoldable pub with_args : Env → InvokeCtx → Option Pointer → Option Pointer → M (Option RuntimeCtx)
unfolding afree create_runtime_ctx
with_args env invoke_ctx code none = do afree code; afree none; pure none
with_args env invoke_ctx code (some args) =
    create_runtime_ctx env invoke_ctx (record { ptr = code; size = invoke_ctx.code_buf.size })
      (record { ptr = some args; size = invoke_ctx.arg_buf.size })

-- Behind the copy of the code.
unfoldable pub with_code : Env → InvokeCtx → Option Pointer → M (Option RuntimeCtx)
unfolding afree get_buf_from_user with_args create_runtime_ctx
with_code env invoke_ctx none = do afree none; afree none; pure none
with_code env invoke_ctx (some code) =
    if ltb 0 invoke_ctx.arg_buf.size
    then get_buf_from_user env invoke_ctx.arg_buf.ptr invoke_ctx.arg_buf.size
      >>= with_args env invoke_ctx (some code)
    else create_runtime_ctx env invoke_ctx
        (record { ptr = some code; size = invoke_ctx.code_buf.size })
        (record { ptr = none; size = invoke_ctx.arg_buf.size })

unfoldable pub init_interpreter : Env → InvokeCtx → M (Option RuntimeCtx)
unfolding get_buf_from_user with_code
init_interpreter env invoke_ctx =
    get_buf_from_user env invoke_ctx.code_buf.ptr invoke_ctx.code_buf.size
    >>= with_code env invoke_ctx

-- `size` bytes behind `front` bytes are in the block that amalloc was asked for.
abbrev pub stands_in : Kernel → ℕ → ℕ → Option Pointer → Bool
stands_in k front size none = false
stands_in k front size (some p) = leb (front + size + 128 - 1 + 8) (k.sizes p.block)

-- The segments with their initialisation vectors are in their blocks. This is no test of the source,
-- which accesses segments of the sizes in the context whatever was allocated; it stands for those
-- accesses being defined. What is read as code behind the code segment, where the source has no test
-- either, is left to the contents of `decrypted`.
unfoldable pub segments_fit : RuntimeCtx → Kernel → Bool
segments_fit ctx k =
    stands_in k 16 ctx.code_seg_size ctx.code_seg_bp
    && (stands_in k 16 ctx.stack_seg_size ctx.stack_seg_bp
        && (stands_in k 16 ctx.call_seg_size ctx.call_seg_bp
            && stands_in k 0 ctx.print_seg_size ctx.print_seg_bp))
