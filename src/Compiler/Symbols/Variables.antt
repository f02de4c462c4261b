-- ===== src/Compiler/Symbols/Variables.antt =====
-- The variable table of a function refines a list of names.
use mathlib.Core.Path.{subst}
use bispe.Base.{
  ℕ, ◌≡◌, refl, sym, ap, ◌∙◌, Bool, true, false, Option, none, some, List, map, Bytes,
  if◌then◌else◌, length, get_elem?, get_elem?-modify_self, str_eq, returned,
}
use bispe.Compiler.Symbols.{
  Dtype, Hashed, HashedLaws, VarInfo, FuncInfo, Symbols, VarRef, var_info_hash, add_var,
  add_var_entry, get_var, insert_var, var_at, update_func,
}
use bispe.Compiler.Symbols.Refines.{position, position-append, map-snoc, length-map}

abbrev pub var_names : {Table : Type 0} → FuncInfo Table → List Bytes
var_names i = map (λ (v : VarInfo). v.name) i.vars

module _ {Table : Type 0} (h : Hashed Table) where
  -- The variable table finds each variable at its place.
  abbrev pub FindsVars : FuncInfo Table → Type 0
  FindsVars i = (n : Bytes) → h.find_member var_info_hash i.var_table n ≡ position n (var_names i)

  get_var_lem :
      (n : Bytes) (f : ℕ) (s : Symbols Table) (i : FuncInfo Table)
      → get_elem? s.funcs f ≡ some i
      → FindsVars i
      → get_var h n f s ≡ returned (var_at h f (position n (var_names i)), s)
  unfolding get_var
  get_var_lem n f s i e finds = rw e (rw (finds n) refl)

  var_at-if :
      (b : Bool) (f q : ℕ) (o : Option ℕ)
      → var_at h f (if b then some q else o)
        ≡ (if b then some (record { func = f; var = q }) else var_at h f o)
  var_at-if true f q o = refl
  var_at-if false f q o = refl

  entered :
      (n : Bytes) (t : Dtype) (f : ℕ) (s s' : Symbols Table) (i : FuncInfo Table) (p : VarRef)
      → get_elem? s.funcs f ≡ some i
      → FindsVars i
      → add_var h n t (some f) s ≡ returned (some p, s')
      → add_var_entry h f n t i (position n (var_names i)) s ≡ returned (some p, s')
  unfolding add_var
  entered n t f s s' i p e finds added =
      let run : add_var h n t (some f) s ≡ add_var_entry h f n t i (position n (var_names i)) s =
        rw e (rw (finds n) refl) in
      sym run ∙ added

  module _ (laws : HashedLaws h) where
    insert_var-FindsVars :
        (n : Bytes) (t : Dtype) (i : FuncInfo Table)
        → FindsVars i
        → position n (var_names i) ≡ none
        → FindsVars (insert_var h n t i)
    insert_var-FindsVars n t i finds new j =
        let len : length (var_names i) ≡ length i.vars =
          length-map (λ (v : VarInfo). v.name) i.vars in
        laws.find-add var_info_hash i.var_table n (length i.vars) j (finds n ∙ new)
        ∙ (rw (finds j) (rw (sym len) (sym (position-append j (var_names i) n new)))
            ∙ ap (position j) (
                sym (
                  map-snoc (λ (v : VarInfo). v.name) i.vars
                    (record { name = n; type = t; pos = 0 }))))

    added_var :
        (n j : Bytes) (t : Dtype) (f : ℕ) (s : Symbols Table) (i : FuncInfo Table)
        → get_elem? s.funcs f ≡ some i
        → FindsVars i
        → position n (var_names i) ≡ none
        → get_var h j f (update_func (insert_var h n t) f s)
          ≡ returned (
            (if str_eq n j
                then some (record { func = f; var = length i.vars })
                else var_at h f (position j (var_names i))),
            update_func (insert_var h n t) f s,
          )
    added_var n j t f s i e finds new =
        let len : length (var_names i) ≡ length i.vars =
          length-map (λ (v : VarInfo). v.name) i.vars in
        let s' : Symbols Table = update_func (insert_var h n t) f s in
        let place : position j (var_names (insert_var h n t i))
            ≡ (if str_eq n j then some (length i.vars) else position j (var_names i)) =
          ap (position j)
            (map-snoc (λ (v : VarInfo). v.name) i.vars (record { name = n; type = t; pos = 0 }))
          ∙ (position-append j (var_names i) n new ∙ rw len refl) in
        get_var_lem j f s' (insert_var h n t i)
          (get_elem?-modify_self (insert_var h n t) s.funcs f e)
          (insert_var-FindsVars n t i finds new)
        ∙ ap (λ (r : Option VarRef). returned (r, s'))
            (ap (var_at h f) place
              ∙ var_at-if (str_eq n j) f (length i.vars) (position j (var_names i)))

    after_add :
        (n j : Bytes) (t : Dtype) (f : ℕ) (s s' : Symbols Table) (i : FuncInfo Table) (p : VarRef)
        (o : Option ℕ)
        → get_elem? s.funcs f ≡ some i
        → FindsVars i
        → position n (var_names i) ≡ o
        → add_var_entry h f n t i o s ≡ returned (some p, s')
        → get_var h j f s'
          ≡ returned ((if str_eq n j then some p else var_at h f (position j (var_names i))), s')
    after_add n j t f s s' i p (some q) e finds found added = absurd (cc)
    after_add n j t f s s' i p none e finds found added =
        let place : ◌≡◌ {A = VarRef} (record { func = f; var = length i.vars }) p = cc in
        let state : update_func (insert_var h n t) f s ≡ s' = cc in
        subst
          (λ (q : VarRef).
            get_var h j f s'
            ≡ returned ((if str_eq n j then some q else var_at h f (position j (var_names i))), s'))
          place
          (subst
            (λ (x : Symbols Table).
              get_var h j f x
              ≡ returned (
                (if str_eq n j
                    then some (record { func = f; var = length i.vars })
                    else var_at h f (position j (var_names i))),
                x,
              ))
            state (added_var n j t f s i e finds found))

    -- Let the variable table of a function find each variable at its place in the list of the
    -- function's variables. If add_var has added a variable to the function, then get_var finds it
    -- where add_var has put it, and finds any other name, or finds nothing, as before.
    pub get_var-add_var :
        (n j : Bytes) (t : Dtype) (f : ℕ) (s s' : Symbols Table) (i : FuncInfo Table) (p : VarRef)
        → get_elem? s.funcs f ≡ some i
        → FindsVars i
        → add_var h n t (some f) s ≡ returned (some p, s')
        → (r : Option VarRef) × (get_var h j f s ≡ returned (r, s))
          × (get_var h j f s' ≡ returned ((if str_eq n j then some p else r), s'))
    get_var-add_var n j t f s s' i p e finds added =
        let found : add_var_entry h f n t i (position n (var_names i)) s ≡ returned (some p, s') =
          entered n t f s s' i p e finds added in
        (
          var_at h f (position j (var_names i)),
          get_var_lem j f s i e finds,
          after_add n j t f s s' i p (position n (var_names i)) e finds refl found,
        )
