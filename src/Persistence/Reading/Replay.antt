-- ===== src/Persistence/Reading/Replay.antt =====
-- Reading an operation from the file does to the nodes what the operation did.
use hybrid_databases.Base.{
  if◌then◌else◌, Bool-cases, ◌==◌, ℕ, zero, suc, ◌%◌, ◌^◌, ◌<◌, ◌≡◌, refl, ap, arith, true, false,
  Option, none, some, List, [], ◌∷◌, length, ltb, leb, map, get_elem?, inl, inr, Option-cases,
}
use mathlib.Core.Path.{fun_ext}
use hybrid_databases.Storage.Format.{array_end}
use hybrid_databases.Storage.Reader.{Reader}
use hybrid_databases.Storage.Items.{nil, cons}
use hybrid_databases.Persistence.Emitting.{num, append_items}
use hybrid_databases.Persistence.Schema.{NodeType, DatabaseType, attribute_types}
use hybrid_databases.Persistence.Attributes.{Value, kind, normal}
use hybrid_databases.Persistence.Attributes.Storing.{stored}
use hybrid_databases.Persistence.Attributes.Reading.{
  attribute_load-Reads, load_attributes-ReadsAll, init_attributes,
}
use hybrid_databases.Persistence.Loading.{Node, Store, got, ◌>>=◌, get_store, ensure}
use hybrid_databases.Persistence.Loading.Reading.{
  ReadsAll, Reads-number, Reads-last, ReadsAll-bind, ReadsAll-append, ReadsAll-then, ReadsAll-first,
  ReadsAll-skip,
}
use hybrid_databases.Persistence.Reading.{
  read_node_prepare, read_node_create, read_node_delete, read_node_modify, read_node_load,
  set_attributes, fresh, put_node,
}
use hybrid_databases.Persistence.Operations.{
  Operation, create, modify, delete, apply_operation, add_node, initial, IsLegal, operation_parts,
  Dumped, dumped, dumped_parts, load_dumped, IsLoadable,
}
use hybrid_databases.Persistence.Loads.{load_operation}

get_elem?-lt {ℓ} :
    {A : Type ℓ} (xs : List A) (i : ℕ) {a : A} → get_elem? xs i ≡ some a → i < length xs
get_elem?-lt [] i h = cc
get_elem?-lt (x ∷ xs) zero h = omega arith
get_elem?-lt (x ∷ xs) (suc i) h = omega (arith, get_elem?-lt xs i h)

module _ (D : DatabaseType) (type id : ℕ) (T : NodeType) (S : Store) (end : List ℕ)
    (small_type : type < 2 ^ 64) (small_id : id < 2 ^ 64)
    (known : get_elem? D.node_types type ≡ some T) where
  in_range : ltb type (length D.node_types) ≡ true
  in_range = let h = get_elem?-lt D.node_types type known in ground arith

  pub prepare_taken :
      (node : Node)
      → S.nodes id ≡ some node
      → ReadsAll end (read_node_prepare D) (cons (num type) (cons (num id) nil)) none S S
  unfolding read_node_prepare
  prepare_taken node taken = ReadsAll-bind _ (Reads-number type S small_type) (
      rw in_range (
        ReadsAll-first (ensure true) _ (λ R. refl)
          (ReadsAll-then _ (Reads-last end (Reads-number id S small_id))
            (λ R. unfold ◌>>=◌ in rw (known, taken) refl))))

  -- The nodes with the new one, before it is initialised
  abbrev pub allocated : Store
  allocated =
      put_node id (some (fresh type))
        (record S { node_id_counter = if ltb S.node_id_counter id then id else S.node_id_counter })

  pub prepare_free :
      S.nodes id ≡ none
      → ReadsAll end
          (read_node_prepare D)
          (cons (num type) (cons (num id) nil))
          (some (T, type, id))
          S
          allocated
  unfolding read_node_prepare
  prepare_free free = ReadsAll-bind _ (Reads-number type S small_type) (
      rw in_range (
        ReadsAll-first (ensure true) _ (λ R. refl)
          (ReadsAll-then _ (Reads-last end (Reads-number id S small_id))
            (λ R. unfold ◌>>=◌ in rw (known, free) refl))))

put_put :
    (id : ℕ) (a b : Option Node) (S : Store) → put_node id b (put_node id a S) ≡ put_node id b S
unfolding put_node
put_put id a b S =
    ap (λ (f : ℕ → Option Node). record S { nodes = f })
      (fun_ext (λ j. elim (Bool-cases (j == id)) [ inl e ↦ rw e refl | inr e ↦ rw e refl ]))

module _ (D : DatabaseType) (S : Store) where
  create_reads :
      (type id : ℕ)
      → IsLegal D S (create type id)
      → ReadsAll
          (array_end ∷ [])
          (read_node_create D)
          (cons (num type) (cons (num id) nil))
          tt
          S
          (apply_operation D (create type id) S)
  unfolding read_node_create apply_operation
  create_reads type id (p, q, (T, known)) = elim (Option-cases (S.nodes id)) [
    | inl free ↦
        rw (free, apply_operation)
          (ReadsAll-then _ (prepare_free D type id T S _ p q known free)
            (λ R. unfold ◌>>=◌ add_node initial in rw (put_put, known) refl))
    | inr (node, taken) ↦
        rw (taken, apply_operation)
          (ReadsAll-then _ (prepare_taken D type id T S _ p q known node taken) (λ R. refl))
  ]

  delete_reads :
      (id : ℕ)
      → IsLegal D S (delete id)
      → ReadsAll
          (array_end ∷ [])
          read_node_delete
          (cons (num id) nil)
          tt
          S
          (apply_operation D (delete id) S)
  unfolding read_node_delete apply_operation
  delete_reads id h = ReadsAll-then _ (Reads-last _ (Reads-number id S h)) (λ R.
      unfold ◌>>=◌ in
      elim (Option-cases (S.nodes id)) [
        | inl free ↦ rw (free, apply_operation) refl
        | inr (node, taken) ↦ rw (taken, apply_operation) refl
      ])

  modify_reads :
      (id attr : ℕ) (value : Value)
      → IsLegal D S (modify id attr value)
      → ReadsAll
          (array_end ∷ [])
          (read_node_modify D)
          (cons (num id) (cons (num attr) (cons (stored value) nil)))
          tt
          S
          (apply_operation D (modify id attr value) S)
  unfolding read_node_modify apply_operation
  modify_reads id attr value (p, q, typed) =
      let word : attr % 2 ^ 32 ≡ attr = omega arith in
      let positive : leb (2 ^ 31) attr ≡ false = ground arith in
      ReadsAll-bind _ (Reads-number id S p) (
        ReadsAll-bind _ (Reads-number attr S (omega arith)) (
          ReadsAll-first get_store _ (λ R. refl)
            (elim (Option-cases (S.nodes id)) [
              | inl free ↦ rw (free, apply_operation) (ReadsAll-skip (cons (stored value) nil) S)
              | inr (node, taken) ↦
                  let (T, known, (a, has, kind)) = typed node taken in
                  rw (apply_operation, taken, known, word, positive, word, has, word)
                    (ReadsAll-then _ (Reads-last _ (attribute_load-Reads a.type kind S))
                      (λ R. refl))
            ])))

-- The body of an array that holds an operation
pub load_operation-ReadsAll :
    (D : DatabaseType) (op : Operation) (S : Store)
    → IsLegal D S op
    → ReadsAll
        (array_end ∷ [])
        (load_operation D)
        (operation_parts op)
        tt
        S
        (apply_operation D op S)
unfolding load_operation operation_parts
load_operation-ReadsAll D (create type id) S h =
    ReadsAll-bind _ (Reads-number 0 S (omega arith)) (create_reads D S type id h)
load_operation-ReadsAll D (modify id attr value) S h =
    ReadsAll-bind _ (Reads-number 1 S (omega arith)) (modify_reads D S id attr value h)
load_operation-ReadsAll D (delete id) S h =
    ReadsAll-bind _ (Reads-number 2 S (omega arith)) (delete_reads D S id h)

-- The body of an array that holds a node of a dump
pub read_node_load-ReadsAll :
    (D : DatabaseType) (n : Dumped) (S : Store)
    → IsLoadable D S n
    → ReadsAll (array_end ∷ []) (read_node_load D) (dumped_parts n) tt S (load_dumped n S)
unfolding read_node_load dumped_parts load_dumped append_items
read_node_load-ReadsAll D (dumped type id values) S (p, q, free, (T, known, typed)) =
    let types = attribute_types T in
    let S1 = allocated D type id T S (array_end ∷ []) p q known in
    let S2 = put_node id (some (record { type = type; attributes = init_attributes types })) S1 in
    let loaded = load_attributes-ReadsAll types values typed (array_end ∷ []) S2 in
    let set : (R : Reader) → set_attributes type id (init_attributes types) R S1 ≡ got tt R S2 =
      λ R. unfold ◌>>=◌ in refl in
    let keep : (R : Reader)
        → set_attributes type id (map normal values) R S2
          ≡ got tt R (load_dumped (dumped type id values) S) =
      λ R. unfold ◌>>=◌ add_node in rw (put_put, put_put) refl in
    ReadsAll-append _ (prepare_free D type id T S _ p q known free)
      (ReadsAll-first _ _ set (ReadsAll-then (λ vs. set_attributes type id vs) loaded keep))
