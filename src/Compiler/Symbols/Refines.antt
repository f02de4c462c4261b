-- ===== src/Compiler/Symbols/Refines.antt =====
-- The symbol tables refine lists of names.
use mathlib.Core.Path.{subst}
use bispe.Base.{
  ℕ, suc, ◌≡◌, refl, sym, ap, ◌∙◌, true, false, Option, none, some, Option-cases, inl, inr, List,
  [], ◌∷◌, ◌++◌, map, Bytes, if_holds', if◌then◌else◌, length, str_eq, str_eq_iff, str_eq_refl,
  returned, arith,
}
use bispe.Compiler.Symbols.{
  Dtype, Hashed, HashedLaws, FuncInfo, Symbols, func_info_hash, add_func, add_entry, get_func,
  init_func_table, new_func, insert_func,
}

-- The place of a name in a list of names: the first one, if it is there.
unfoldable pub position : Bytes → List Bytes → Option ℕ
position n [] = none
position n (k ∷ ks) =
    if str_eq k n then some 0 else elim (position n ks) [ none ↦ none | some p ↦ some (suc p) ]

-- The same of a list with one more name.
pub position-append :
    (n : Bytes) (ks : List Bytes) (k : Bytes)
    → position k ks ≡ none
    → position n (ks ++ k ∷ []) ≡ (if str_eq k n then some (length ks) else position n ks)
unfolding position
position-append n [] k new = refl
position-append n (j ∷ ks) k new =
    let absent : position k ks ≡ none = ground (arith, new) in
    let other : str_eq j k ≡ false = ground (arith, new) in
    ground (
      arith,
      position-append n ks k absent,
      other,
      str_eq_iff j n,
      str_eq_iff k n,
      str_eq_refl k,
      new,
    )

module _ {Table : Type 0} where
  abbrev pub func_names : Symbols Table → List Bytes
  func_names s = map (λ (i : FuncInfo Table). i.name) s.funcs

module _ {Table : Type 0} (h : Hashed Table) where
  -- The function table finds each function at its place, and nothing before it is set up.
  pub record IsConsistent (s : Symbols Table) : Type 0 where
    pub fresh : s.func_table_init ≡ false → s.funcs ≡ []
    pub finds :
        (n : Bytes) → h.find_member func_info_hash s.func_table n ≡ position n (func_names s)

position-nil : (n : Bytes) → position n [] ≡ none
unfolding position
position-nil n = refl

pub map-snoc {ℓ κ} :
    {A : Type ℓ} {B : Type κ} (f : A → B) (xs : List A) (x : A)
    → map f (xs ++ x ∷ []) ≡ map f xs ++ f x ∷ []
map-snoc f [] x = refl
map-snoc f (y ∷ xs) x = ap (◌∷◌ (f y)) (map-snoc f xs x)

pub length-map {ℓ κ} :
    {A : Type ℓ} {B : Type κ} (f : A → B) (xs : List A) → length (map f xs) ≡ length xs
length-map f [] = refl
length-map f (y ∷ xs) = ap suc (length-map f xs)

-- The result of `add_func`, by the place of the name, and the names behind it.
abbrev pub added_func : {Table : Type 0} → Option ℕ → Symbols Table → Option ℕ
added_func (some p) s = none
added_func none s = some (length s.funcs)

abbrev pub added_names : Option ℕ → Bytes → List Bytes → List Bytes
added_names (some p) n ns = ns
added_names none n ns = ns ++ n ∷ []

module _ {Table : Type 0} (h : Hashed Table) (laws : HashedLaws h) where
  init_func_table-IsConsistent :
      (s : Symbols Table)
      → IsConsistent h s
      → IsConsistent h (init_func_table h s)
        × (func_names (init_func_table h s) ≡ func_names s)
        × ((init_func_table h s).func_table_init ≡ true)
        × ((init_func_table h s).funcs ≡ s.funcs)
  init_func_table-IsConsistent s c =
      if_holds'
        (λ (s' : Symbols Table).
          IsConsistent h s'
          × (func_names s' ≡ func_names s)
          × (s'.func_table_init ≡ true)
          × (s'.funcs ≡ s.funcs))
        s.func_table_init (λ e. (c, refl, e, refl))
        λ e. (
          record {
            fresh = λ p. absurd (cc);
            finds = λ n. laws.find-init func_info_hash n ∙ sym (empty_names n (c.fresh e));
          },
          refl,
          refl,
          refl,
        )
    where
      empty_names : (n : Bytes) → s.funcs ≡ [] → position n (func_names s) ≡ none
      empty_names n e =
          ap (λ (fs : List (FuncInfo Table)). position n (map (λ (i : FuncInfo Table). i.name) fs))
            e
          ∙ position-nil n

  insert_func-IsConsistent :
      (s : Symbols Table) (n : Bytes) (t : Dtype)
      → IsConsistent h s
      → s.func_table_init ≡ true
      → position n (func_names s) ≡ none
      → IsConsistent h (insert_func h s n t)
  insert_func-IsConsistent s n t c ready new =
      let len : length (func_names s) ≡ length s.funcs =
        length-map (λ (i : FuncInfo Table). i.name) s.funcs in
      record {
        fresh = λ e. absurd (cc);
        finds = λ j.
            laws.find-add func_info_hash s.func_table n (length s.funcs) j (c.finds n ∙ new)
            ∙ (rw (c.finds j) (rw (sym len) (sym (position-append j (func_names s) n new)))
                ∙ ap (position j)
                    (sym (map-snoc (λ (i : FuncInfo Table). i.name) s.funcs (new_func h s n t))));
      }

  -- On a consistent table, add_func returns NULL and keeps the names if the name is in the list
  -- of the functions' names, and otherwise returns the next place and appends the name; the table
  -- is consistent again.
  pub add_func-IsConsistent :
      (n : Bytes) (t : Dtype) (s : Symbols Table)
      → IsConsistent h s
      → (r : Option ℕ) × (s' : Symbols Table) × (add_func h n t s ≡ returned (r, s'))
        × IsConsistent h s'
        × (r ≡ added_func (position n (func_names s)) s)
        × (func_names s' ≡ added_names (position n (func_names s)) n (func_names s))
  unfolding add_func
  add_func-IsConsistent n t s c =
      let (c', names, ready, same) = init_func_table-IsConsistent s c in
      let found : h.find_member func_info_hash (init_func_table h s).func_table n
          ≡ position n (func_names s) =
        c'.finds n ∙ ap (position n) names in
      elim (Option-cases (position n (func_names s))) [
        | inl e ↦
            let s0 : Symbols Table = init_func_table h s in
            (
              some (length s.funcs),
              insert_func h s0 n t,
              ap (λ o. add_entry h o n t s0) (found ∙ e)
                  ∙ ap
                      (λ (fs : List (FuncInfo Table)).
                        returned (some (length fs), insert_func h s0 n t))
                      same,
              insert_func-IsConsistent s0 n t c' ready (ap (position n) names ∙ e),
              sym (ap (λ o. added_func o s) e),
              map-snoc (λ (i : FuncInfo Table). i.name) s0.funcs (new_func h s0 n t)
                  ∙ (ap (λ ns. ns ++ n ∷ []) names
                      ∙ sym (ap (λ o. added_names o n (func_names s)) e)),
            )
        | inr (p, e) ↦ (
          none,
          init_func_table h s,
          ap (λ o. add_entry h o n t (init_func_table h s)) (found ∙ e),
          c',
          sym (ap (λ o. added_func o s) e),
          names ∙ sym (ap (λ o. added_names o n (func_names s)) e),
        )
      ]

  get_func_lem :
      (n : Bytes) (s : Symbols Table)
      → IsConsistent h s
      → get_func h n s ≡ position n (func_names s)
  unfolding get_func
  get_func_lem n s c = c.finds n

  lookup_added :
      (n j : Bytes) (s s' : Symbols Table) (f : ℕ) (o : Option ℕ)
      → position n (func_names s) ≡ o
      → some f ≡ added_func o s
      → func_names s' ≡ added_names o n (func_names s)
      → position j (func_names s') ≡ (if str_eq n j then some f else position j (func_names s))
  lookup_added n j s s' f (some p) e er en = absurd (cc)
  lookup_added n j s s' f none e er en =
      let len : length (func_names s) ≡ length s.funcs =
        length-map (λ (i : FuncInfo Table). i.name) s.funcs in
      ap (position j) en ∙ (position-append j (func_names s) n e ∙ (rw len (rw (sym er) refl)))

  -- On a consistent table, get_func finds a function that add_func has added at the place that
  -- this has returned, and every other name as before.
  pub get_func-add_func :
      (n j : Bytes) (t : Dtype) (s s' : Symbols Table) (f : ℕ)
      → IsConsistent h s
      → add_func h n t s ≡ returned (some f, s')
      → get_func h j s' ≡ (if str_eq n j then some f else get_func h j s)
  get_func-add_func n j t s s' f c added =
      let (r, s'', e, c'', er, en) = add_func-IsConsistent n t s c in
      let er' : some f ≡ added_func (position n (func_names s)) s = cc in
      let es : s'' ≡ s' = cc in
      get_func_lem j s' (subst (IsConsistent h) es c'')
      ∙ (lookup_added n j s s' f (position n (func_names s)) refl er' (
            subst
              (λ (x : Symbols Table).
                func_names x ≡ added_names (position n (func_names s)) n (func_names s))
              es en)
          ∙ ap (λ o. if str_eq n j then some f else o) (sym (get_func_lem j s c)))
