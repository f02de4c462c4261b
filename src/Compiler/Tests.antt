-- ===== src/Compiler/Tests.antt =====
-- A container for the tests and the instances of theorems, and runs of the compiler.
mod Files
use bispe.Base.{
  ◌⊎◌, inl, arith, ◌-◌, ◌++◌, length-append, ℕ, zero, suc, ◌+◌, ◌%◌, ◌≤◌, ◌≡◌, ◌≢◌, refl, sym, ap,
  ◌∙◌, true, false, Option, none, some, List, [], ◌∷◌, Bytes, if◌then◌else◌, str_eq, codes, length,
  Outcome, ok, out_of_fuel, then_run, from_result, from_option, returned,
}
use bispe.Compiler.Token.{
  Token, tok_int, tok_identifier, tok_eq, tok_intliteral, tok_semicl, tok_eof,
}
use bispe.Compiler.Lexer.{token, valued, tokenize_string}
use bispe.Compiler.Lexer.Print.{AreTokens, print_tokens}
use bispe.Compiler.Lexer.Total.{tokenize_string_total}
use bispe.Compiler.Lexer.Sound.{tokenize_string-AreTokens}
use bispe.Compiler.Lexer.RoundTrip.{tokenize_string-print, tokenize_string-print_tokens}
use bispe.Compiler.Symbols.{
  dtype_int, Hashed, HashedLaws, Symbols, func_info_hash, var_info_hash, init_func_table,
  insert_func, add_func, get_func, FuncInfo, VarRef, new_func, insert_var, update_func, add_var,
  get_var,
}
use bispe.Compiler.Symbols.Variables.{FindsVars, get_var-add_var}
use bispe.Compiler.Symbols.Refines.{
  position, func_names, IsConsistent, added_func, added_names, add_func-IsConsistent,
  get_func-add_func,
}
use bispe.Compiler.Ast.Nodes.{Node}
use bispe.Compiler.Ast.Create.{Checks}
use bispe.Compiler.Parser.Match.{State, parse_tokenlist}
use bispe.Compiler.Parser.Ends.{parse_tokenlist-ne-out_of_fuel}
use bispe.Compiler.Instr.{instr_push, instr_print}
use bispe.Compiler.Generator.Defs.{
  push, push_func_prolog, push_func_epilog, Code, code, generate_code,
}
use bispe.Compiler.Codebuf.{Malloc, Random, bytecode_size, buf_size, build_codebuf}
use bispe.Compiler.Codebuf.Layout.{IsMalloc, IsRandom, code_file, build_codebuf_lem}
use bispe.Compiler.Driver.{Realloc, read_file, build_outfile_name}
use bispe.Compiler.Driver.Names.{IsDotless, build_outfile_name_lem}
use bispe.Compiler.Driver.Reads.{IsRealloc, IsRead, read_file-IsRead}
use bispe.Compiler.Codebuf.Size.{build_codebuf-length}

abbrev pub Assoc : Type 0
Assoc = List (Bytes × ℕ)

unfoldable pub search_assoc : Assoc → Bytes → Option ℕ
unfolding str_eq
search_assoc [] j = none
search_assoc ((k, p) ∷ t) j = if str_eq k j then some p else search_assoc t j

-- One bucket.
abbrev pub assoc : Hashed Assoc
assoc = record {
  init = [];
  find_member = λ hash t j. search_assoc t j;
  add = λ hash t k p. (k, p) ∷ t;
}

assoc_add :
    (t : Assoc) (k : Bytes) (p : ℕ) (j : Bytes)
    → search_assoc ((k, p) ∷ t) j ≡ (if str_eq k j then some p else search_assoc t j)
unfolding search_assoc
assoc_add t k p j = refl

assoc_init : (j : Bytes) → search_assoc [] j ≡ none
unfolding search_assoc
assoc_init j = refl

pub assoc-HashedLaws : HashedLaws assoc
assoc-HashedLaws = record {
  find-init = λ hash j. assoc_init j;
  find-add = λ hash t k p j absent. assoc_add t k p j;
}

-- The state before the first token; the static tables are zeroed, as `init` leaves them.
abbrev pub start : Checks Assoc
start = record {
  max_arg_count = 0;
  symbols = record { func_table_init = false; func_table = []; funcs = []; junk = 77 };
}

parse : Bytes → Outcome (Option Node × State Assoc)
unfolding tokenize_string parse_tokenlist search_assoc func_info_hash var_info_hash
parse s =
    then_run (tokenize_string s)
      λ r. then_run (from_result (from_option r)) λ ts. parse_tokenlist assoc ts start

abbrev hello : Bytes
hello = codes "void main(int a, int b) { int c = a; if(a > 1) { print a+c; } }"

hello_ast : Outcome (Option Node × State Assoc)
unfolding parse
hello_ast = parse hello

compile_text : Bytes → Outcome (Option (List Code))
unfolding parse generate_code push_func_prolog push_func_epilog push
compile_text s = then_run (parse s) λ (n, st).
    then_run (from_result (from_option n))
      λ ast. from_result (generate_code assoc ast st.checks.symbols)

hello_code : Outcome (Option (List Code))
unfolding compile_text
hello_code = compile_text hello

-- A source text with every kind of token, a comment, and white space at both ends.
abbrev source : Bytes
source = codes " int a = 0x1F; // c"

abbrev source_tokens : List Token
source_tokens =
    valued tok_int (codes "int")
    ∷ valued tok_identifier (codes "a")
    ∷ token tok_eq
    ∷ valued tok_intliteral (codes "0x1F")
    ∷ token tok_semicl
    ∷ token tok_eof
    ∷ []

source_read : tokenize_string source ≡ ok (some source_tokens)
unfolding tokenize_string
source_read = refl

tokenize_string_total_example : (r : Option (List Token)) × (tokenize_string (codes "a $ b") ≡ ok r)
tokenize_string_total_example = tokenize_string_total (codes "a $ b")

tokenize_string-AreTokens_example : AreTokens source_tokens
tokenize_string-AreTokens_example = tokenize_string-AreTokens source source_read

tokenize_string-print_example :
    tokenize_string (print_tokens source_tokens) ≡ ok (some source_tokens)
tokenize_string-print_example = tokenize_string-print (tokenize_string-AreTokens source source_read)

tokenize_string-print_tokens_example :
    tokenize_string (print_tokens source_tokens) ≡ tokenize_string source
tokenize_string-print_tokens_example = tokenize_string-print_tokens source source_read

parse_tokenlist-ne-out_of_fuel_example : parse_tokenlist assoc source_tokens start ≢ out_of_fuel
parse_tokenlist-ne-out_of_fuel_example = parse_tokenlist-ne-out_of_fuel assoc source_tokens start

-- The symbol table with no function.
abbrev no_symbols : Symbols Assoc
no_symbols = start.symbols

no_symbols-IsConsistent : IsConsistent assoc no_symbols
unfolding search_assoc position
no_symbols-IsConsistent = record { fresh = λ e. refl; finds = λ n. refl }

-- The table with the function `f`.
abbrev with_f : Symbols Assoc
with_f = insert_func assoc (init_func_table assoc no_symbols) (codes "f") dtype_int

f_added : add_func assoc (codes "f") dtype_int no_symbols ≡ returned (some 0, with_f)
unfolding add_func search_assoc
f_added = refl

add_func-IsConsistent_example :
    (r : Option ℕ) × (s' : Symbols Assoc) × (add_func assoc (codes "f") dtype_int no_symbols
      ≡ returned (r, s'))
    × IsConsistent assoc s'
    × (r ≡ added_func (position (codes "f") (func_names no_symbols)) no_symbols)
    × (func_names s'
        ≡ added_names
            (position (codes "f") (func_names no_symbols))
            (codes "f")
            (func_names no_symbols))
add_func-IsConsistent_example =
    add_func-IsConsistent assoc assoc-HashedLaws (codes "f") dtype_int no_symbols
      no_symbols-IsConsistent

get_func-add_func_example :
    get_func assoc (codes "f") with_f
    ≡ (if str_eq (codes "f") (codes "f") then some 0 else get_func assoc (codes "f") no_symbols)
get_func-add_func_example =
    get_func-add_func assoc assoc-HashedLaws (codes "f") (codes "f") dtype_int no_symbols with_f 0
      no_symbols-IsConsistent f_added

-- A list of zeros.
abbrev pub zeros : ℕ → List ℕ
zeros zero = []
zeros (suc n) = 0 ∷ zeros n

pub length-zeros : (n : ℕ) → length (zeros n) ≡ n
length-zeros zero = refl
length-zeros (suc n) = ap suc (length-zeros n)

abbrev pub zero_malloc : Malloc
zero_malloc n = some (zeros n)

abbrev zero_random : Random
zero_random k n = some (zeros n)

pub zero_malloc-IsMalloc : IsMalloc zero_malloc
zero_malloc-IsMalloc n block e =
    let e' : zeros n ≡ block = cc in sym (ap length e') ∙ length-zeros n

pub zero_random-IsRandom : IsRandom zero_random
zero_random-IsRandom k n ws e = let e' : zeros n ≡ ws = cc in sym (ap length e') ∙ length-zeros n

abbrev push_print : List Code
push_print = code instr_push 5 ∷ code instr_print 0 ∷ []

build_codebuf_example :
    build_codebuf zero_malloc zero_random push_print false
    ≡ returned (code_file zero_random push_print false (zero_malloc (buf_size push_print false)))
build_codebuf_example =
    build_codebuf_lem zero_malloc zero_random push_print false zero_malloc-IsMalloc
      zero_random-IsRandom

abbrev push_print_file : List ℕ
push_print_file = 2 ∷ 5 ∷ 3 ∷ 1 ∷ []

push_print_built :
    build_codebuf zero_malloc zero_random push_print true ≡ returned (some push_print_file)
unfolding build_codebuf
push_print_built = refl

build_codebuf-length_example :
    (length push_print_file ≡ buf_size push_print true)
    × (length push_print_file % 4 ≡ 0)
    × (((if true then 1 else 5) + bytecode_size push_print) ≤ length push_print_file)
build_codebuf-length_example =
    build_codebuf-length zero_malloc zero_random push_print true push_print_file
      zero_malloc-IsMalloc zero_random-IsRandom push_print_built

abbrev f_info : FuncInfo Assoc
f_info = new_func assoc no_symbols (codes "f") dtype_int

f_info-FindsVars : FindsVars assoc f_info
unfolding search_assoc position
f_info-FindsVars n = refl

-- The table with the variable `a` of the function.
abbrev with_a : Symbols Assoc
with_a = update_func (insert_var assoc (codes "a") dtype_int) 0 with_f

abbrev a_ref : VarRef
a_ref = record { func = 0; var = 0 }

a_added : add_var assoc (codes "a") dtype_int (some 0) with_f ≡ returned (some a_ref, with_a)
unfolding add_var search_assoc
a_added = refl

get_var-add_var_example :
    (r : Option VarRef) × (get_var assoc (codes "b") 0 with_f ≡ returned (r, with_f))
    × (get_var assoc (codes "b") 0 with_a
        ≡ returned ((if str_eq (codes "a") (codes "b") then some a_ref else r), with_a))
get_var-add_var_example =
    get_var-add_var assoc assoc-HashedLaws (codes "a") (codes "b") dtype_int 0 with_f with_a f_info
      a_ref refl f_info-FindsVars a_added

-- A `realloc` that fills up with zeros.
abbrev pub zero_realloc : Realloc
zero_realloc n old = some (old ++ zeros (n - length old))

pub zero_realloc-IsRealloc : IsRealloc zero_realloc
zero_realloc-IsRealloc n old block le e =
    let e' : old ++ zeros (n - length old) ≡ block = cc in
    (
      zeros (n - length old),
      sym e',
      omega (
        arith,
        ap length e',
        length-append old (zeros (n - length old)),
        length-zeros (n - length old),
        le,
      ),
    )

read_file-IsRead_example :
    (q : Option (List ℕ)) × (read_file zero_malloc zero_realloc false (zeros 300) ≡ returned q)
    × IsRead zero_malloc zero_realloc false (zeros 300) q
read_file-IsRead_example =
    read_file-IsRead zero_malloc zero_realloc false (zeros 300) zero_malloc-IsMalloc
      zero_realloc-IsRealloc

build_outfile_name-a_b_c :
    build_outfile_name zero_malloc (codes "a.b.c") ≡ returned (some (codes "a.b.scle" ++ 0 ∷ []))
unfolding build_outfile_name
build_outfile_name-a_b_c = refl

build_outfile_name_lem_example :
    build_outfile_name zero_malloc (codes "a.b.c")
    ≡ returned (some (codes "a.b" ++ (codes ".scle" ++ 0 ∷ [])))
build_outfile_name_lem_example =
    build_outfile_name_lem zero_malloc zero_malloc-IsMalloc (codes "a.b") (codes "a.b.c")
      (inl (codes "c", refl, IsDotless.cons refl IsDotless.nil))
