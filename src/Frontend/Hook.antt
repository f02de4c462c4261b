-- ===== src/Frontend/Hook.antt =====
-- What lies between frontend/bispe.c and backend/bispe_main.c: the structure that the frontend
-- writes, and what the hook answers to it.
use bispe.Base.{
  ◌≤◌, ℕ, ◌+◌, ◌*◌, ◌^◌, ◌≡◌, ◌≢◌, refl, sym, true, Option, none, some, List, [], ◌∷◌, Bytes, ◌==◌,
  if◌then◌else◌, length, inl, inr, Outcome, ok, exits, faults, out_of_fuel, arith,
}
use bispe.Backend.Session.Kernel.{Kernel, Env}
use bispe.Backend.Session.Context.{InvokeCtx}
use bispe.Backend.Session.Invoke.{Schedule, eintr, Invoked, sizeof_invoke_ctx, invoke_interpreter}
use bispe.Backend.Session.Hook.{AnswersOr, invoke_interpreter-Answers}
use bispe.Frontend.Main.{Request, Reply}
use bispe.Frontend.Main.Shows.{IsBackend}

-- The words that the bytes of a file are, the lowest byte first.
abbrev pub code_words : Bytes → List ℕ
code_words (a ∷ b ∷ c ∷ d ∷ s) = (a + b * 2 ^ 8 + c * 2 ^ 16 + d * 2 ^ 24) ∷ code_words s
code_words s = []

-- `struct invoke_ctx`, with 0 for the address of the code, 1 for that of the arguments, and others for
-- those of the result and the output buffer.
abbrev pub invoke_ctx_of : Request → InvokeCtx
invoke_ctx_of r = record {
  stack_size = r.stack_size;
  call_size = r.call_size;
  ipc = r.ipc;
  code_buf = record { ptr = 0; size = length r.code };
  arg_buf = record { ptr = 1; size = 4 * length r.args };
  result = 2;
  out_buf = record { ptr = 3; size = r.out_size };
}

-- The frontend's memory as the hook copies from it.
abbrev pub with_user : Env → Request → Env
with_user env r = record env { user = λ p n. some (if p == 0 then code_words r.code else r.args) }

-- A hook that faults or does not come back gives no answer.
abbrev pub reply_of : Outcome Invoked → Option Reply
reply_of (ok inv) =
    some (record { written = inv.written; output = inv.output; result = inv.put_result })
reply_of exits = none
reply_of faults = none
reply_of out_of_fuel = none

-- `write_sys` of the structure to the file of the hook.
unfoldable pub hook : ℕ → Env → Schedule → Kernel → Request → Option Reply
unfolding invoke_interpreter
hook fuel env s k r =
    reply_of (invoke_interpreter fuel (with_user env r) (invoke_ctx_of r) sizeof_invoke_ctx s k)

reply_of-bounds :
    (env : Env) (c : InvokeCtx) (k : Kernel) (o : Outcome Invoked) (reply : Reply)
    → AnswersOr env c k o
    → reply_of o ≡ some reply
    → (4 * length reply.output ≡ reply.written) × (reply.written ≤ c.out_buf.size)
reply_of-bounds env c k (ok inv) reply (inl (e, h)) r = cc
reply_of-bounds env c k (ok inv) reply (inr h) r =
    let same : record { written = inv.written; output = inv.output; result = inv.put_result }
        ≡ reply =
      cc in
    rw (sym same) (h.words, h.in_bounds)
reply_of-bounds env c k exits reply h r = cc
reply_of-bounds env c k faults reply h r = cc
reply_of-bounds env c k out_of_fuel reply h r = cc

pub hook-IsBackend :
    (f : ℕ) (env : Env) (s : Schedule) (k : Kernel)
    → ((n : ℕ) → env.alloc n 8 ≡ true)
    → s.created ≢ eintr
    → IsBackend (hook f env s k)
unfolding hook
hook-IsBackend f env s k roomy threads r reply e =
    reply_of-bounds (with_user env r) (invoke_ctx_of r) k
      (invoke_interpreter f (with_user env r) (invoke_ctx_of r) 72 s k) reply
      (invoke_interpreter-Answers f (with_user env r) (invoke_ctx_of r) 72 s k roomy
        (λ p n. (if p == 0 then code_words r.code else r.args, refl)) (omega arith) threads)
      e
