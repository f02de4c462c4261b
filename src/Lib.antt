-- ===== src/Lib.antt =====
-- bispe: a compiler for the language SCLL and a kernel module that interprets its encrypted bytecode.
--
-- The compiler (compiler/) reads a source text into tokens (tokenize_string), builds a syntax tree
-- while it checks names, argument counts and returns (parse_tokenlist, with create_node and the
-- symbol table), generates a list of instructions with absolute jump targets (generate_code), and
-- lays them out as the words of a bytecode file (build_codebuf). The kernel module (backend/)
-- decrypts these words line by line into registers and interprets them with an operand stack and a
-- call stack (bispe_cycle_entry); it halts at the instruction `finish` or with an error code.
--
-- Files and what they model:
--   Base: shared names, Boolean tests, lists, and the results of C routines.
--   Compiler/Token, Compiler/Lexer: compiler/include/lexer.h, compiler/lexer.c. Lexer/Total, Print,
--     Sound and RoundTrip hold its theorems.
--   Compiler/Symbols: compiler/symbols.c; Symbols/Refines and Variables, the tables against lists of
--     names.
--   Compiler/Ast: compiler/ast.c, with its nodes (Nodes), the leaves (Literals), the variables of a
--     function (Register) and the rest of create_node (Create).
--   Compiler/Parser: compiler/parser.c, as production tables (Grammar) and their interpreter (Match);
--     Total and Ends, its fuel.
--   Compiler/Instr: compiler/include/instructions.h.
--   Compiler/Generator: compiler/generator.c; Defs is generate_helper, case by case, Exprs, Jumps and
--     Statements say what it makes of expressions, conditions, branches and loops, Stmts and
--     Compiles what it makes of statements as a whole, Functions what stands around a body.
--   Compiler/Codebuf: build_codebuf of compiler/generator.c; Layout and Size, its words.
--   Compiler/Driver: read_file and build_outfile_name of compiler/compiler.c; Reads, what is in the
--     buffer of the first, and Names, the name that the second builds. Driver/Main: its main; Stages is
--     what stands behind a run, Building, Phases and Converse are about how it ends.
--   Backend/Vm: backend/asm_instructions.S, backend/asm_state_macros.S and
--     backend/bispe_cycle_asm.S: the state (Defs), the instructions (Exec), runs in pieces (Runs), and
--     what they access (Segments).
--   Backend/Session: backend/bispe_interpreter.c and the running of programs in backend/bispe_main.c,
--     in the build with encryption: memory and static variables of the kernel (Kernel), the context
--     of a run (Context), its cycles (Cycles), the thread and the hook of user space (Invoke). Runs
--     sets cycles against uninterrupted runs, Prints follows the print pointer, Frees what is
--     allocated; Hook and Results say what the hook does.
--   Backend/Memory: the CBC macros of backend/asm_state_macros.S (Cbc) and encrypt_code (Encrypt);
--     Chain and Code say what is decrypted.
--   Backend/Key: SHA-256 of backend/bispe_sha.c (Sha), the standard (Sha/Fips), and the comparison of
--     the two (Sha/Functions, Schedule, Order and Standard, with the bits of Bits); the file `password`
--     of backend/bispe_key.c (Store), and the password that counts (Passwords).
--   Frontend: frontend/bispe.c: the numbers of its command line (Numbers; Decimal, printed and read),
--     its options and the reading of a password (Arguments; Passwords), and main (Main; Shows); Hook joins
--     it to the hook of Backend/Session.
--   Correct: generated code on the interpreter: single instructions (Steps), expressions (Exprs),
--     conditions (Jumps), what statements do (Semantics), runs of their code (Reaches, Stmts,
--     Jumping, Branches, Loops, Programs), and trees up to runs (Generated).
--   Compiler/Tests, Backend/Tests, Backend/Key/Tests, Frontend/Tests and Correct/Tests: runs of the
--     program's parts, and the theorems at concrete inputs.
--
-- State and operations. The static variables of a C file are a record that its routines take and
-- return (Symbols, Checks, State, Gen). A pointer to a table entry or to a list element is its
-- position; a null dereference or a read of a union member that was not written is `faulted`,
-- exit(EXIT_FAILURE) is `exited`. A string is the list of its bytes without the terminating zero,
-- read as 0. The words of the interpreter are natural numbers, with its 32 bit arithmetic written
-- out modulo 2 ^ 32. The kernel's memory is its blocks by number, with the ones in use, and a pointer
-- is a block and an offset in words; what the kernel and user space answer (allocations, copies,
-- signals, the scheduler) is in the parameters Env and Schedule. The sizes and counters of the
-- compiler, `int` in C, are taken not to overflow. sglib's hashed container (Hashed), malloc, realloc
-- and the random device (Malloc, Realloc, Random) are parameters, and so are, for the two programs'
-- main, what getopt finds and what files and the kernel module answer (System).
--
-- The parts meet in these places: Driver/Main runs the compiler's phases one after the other, Correct
-- runs what Generator makes on Backend/Vm, Session runs Vm in cycles, and Frontend/Main reads files by
-- the loop of Compiler/Driver and calls the hook of Session: it takes a kernel module as a parameter,
-- with the promise IsBackend, and Frontend/Hook fills the parameter with the hook.
--
-- The segments of a run are functions on all addresses. The source allocates them with the static
-- sizes of the run before, and the context may give them others; where a segment does not stand in
-- the block that was allocated for it (segments_fit), the hook of the model faults before the
-- program is run, since what is behind a block is not followed. The instruction pointer is tested
-- only at jumps, by the source and by the model: what is read as code behind the code segment is what
-- the parameter Env says.
--
-- Fuel. tokenize_loop has one unit more than there are characters, check_prods four for each token
-- and four more. start_interpreter has one unit for each cycle: the programs that it runs need not
-- end, and start_interpreter-Reports says what any number of cycles is enough for. Every other
-- recursion is structural.
--
-- Not modelled: the block cipher (backend/bispe_crypto_asm.S, the AES instructions of the processor),
-- which is the parameter Cipher, and the registers that cache lines of memory, which the model of the
-- interpreter sees as decrypted contents; registration of the kernel module; sglib, another project's
-- library; freeing of memory in the compiler, printing of trees and code, debug macros and tests; the
-- clearing of local variables in the key derivation; the frontend's terminal settings, and messages.
pub mod Base
pub mod Compiler
pub mod Backend
pub mod Correct
pub mod Frontend
