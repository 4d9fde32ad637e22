-- ===== src/Utils/Dictionary.antt =====
-- utils/num_dictionary.h: a hash table with chains, keyed by 64-bit numbers. Nodes are cut from
-- pages and kept in a list when they are not in use, of which the model keeps the number.
pub mod Chains
pub mod Buckets
pub mod Laws
pub mod Changes
pub mod Removal
use hybrid_databases.Base.{
  ℕ, zero, suc, ◌+◌, ◌-◌, ◌*◌, ◌%◌, ◌^◌, Bool, true, false, Option, none, some, List, [], ◌∷◌, ◌++◌,
  length, ltb, ◌==◌, if◌then◌else◌, get_or, set, replicate,
}
use hybrid_databases.Base.Options.{◌>>=◌, ◌>>◌, guard}

-- `_ndict_capacities`
capacities : List ℕ
capacities =
    0 ∷ 29 ∷ 53 ∷ 89 ∷ 137 ∷ 211 ∷ 331 ∷ 499 ∷ 727 ∷ 1061 ∷ 1543 ∷ 2239 ∷ 3229 ∷ 4657 ∷ 6761 ∷ 9767
    ∷ 14083 ∷ 20287 ∷ 29243 ∷ 42131 ∷ 60703 ∷ 87433 ∷ 125927 ∷ 181361 ∷ 261223 ∷ 376171 ∷ 541699
    ∷ 780119 ∷ 1123391 ∷ 1617739 ∷ 2329559 ∷ 3354581 ∷ 4830619 ∷ 6956203 ∷ 10017011 ∷ 14424539
    ∷ 20771371 ∷ 29910821 ∷ 43071601 ∷ 51685939 ∷ 74427803 ∷ 107176057 ∷ 154333591 ∷ 222240413
    ∷ 320026249 ∷ 460837813 ∷ 663606499 ∷ 955593439 ∷ 1376054569 ∷ 1981518631 ∷ 2853386881
    ∷ 4108877153 ∷ 4294967291 ∷ 8294967337 ∷ 12294967297 ∷ 16294967303 ∷ 24294967309 ∷ 32294967307
    ∷ 48294967321 ∷ 64294967299 ∷ 0 ∷ []

-- `_ndict_capacities[i]`; the table ends in 0, and so does what is behind it.
pub capacity_at : ℕ → ℕ
unfolding capacities
capacity_at i = get_or capacities i 0

-- `_ndict_hash`: the product is that of `uint64_t`.
pub hash : ℕ → ℕ → ℕ
hash capacity key = key * 2971215073 % 2 ^ 64 % capacity

module _ {V : Type 0} where
  -- The first node with the key on a chain.
  pub find : ℕ → List (ℕ × V) → Option V
  find key [] = none
  find key ((k, v) ∷ nodes) = if k == key then some v else find key nodes

  -- The chain without that node.
  pub unlink : ℕ → List (ℕ × V) → List (ℕ × V)
  unlink key [] = []
  unlink key ((k, v) ∷ nodes) = if k == key then nodes else (k, v) ∷ unlink key nodes

  -- `node->next = *bucket; *bucket = node`
  pub push_node : ℕ → ℕ × V → List (List (ℕ × V)) → List (List (ℕ × V))
  push_node capacity (k, v) buckets =
      let i = hash capacity k in set buckets i ((k, v) ∷ get_or buckets i [])

  -- The two loops of `_ndict_resize`.
  pub rehash_chain : ℕ → List (ℕ × V) → List (List (ℕ × V)) → List (List (ℕ × V))
  rehash_chain capacity [] new = new
  rehash_chain capacity (node ∷ nodes) new =
      rehash_chain capacity nodes (push_node capacity node new)

  pub rehash : ℕ → List (List (ℕ × V)) → List (List (ℕ × V)) → List (List (ℕ × V))
  rehash capacity [] new = new
  rehash capacity (chain ∷ chains) new = rehash capacity chains (rehash_chain capacity chain new)

-- `NumDictionary`
pub record Dictionary (V : Type 0) : Type 0 where
  pub size : ℕ
  pub capacity : ℕ
  pub capacity_index : ℕ
  pub buckets : List (List (ℕ × V))
  pub pages : ℕ
  pub free_nodes : ℕ

-- `ndict_generic_init`
abbrev pub init : (V : Type 0) → Dictionary V
init V = record {
  size = 0;
  capacity = 0;
  capacity_index = 0;
  buckets = [];
  pages = 0;
  free_nodes = 0;
}

module _ {V : Type 0} where
  -- `ndict_generic_get_node`, with the value of the node that it finds
  pub get_node : Dictionary V → ℕ → Option V
  unfolding find
  get_node D key =
      if D.capacity == 0 then none else find key (get_or D.buckets (hash D.capacity key) [])

  abbrev pub contains : Dictionary V → ℕ → Bool
  contains D key = elim (get_node D key) [ none ↦ false | some v ↦ true ]

  -- `_ndict_resize` to the table's entry `index`
  pub rebuild : Dictionary V → ℕ → Dictionary V
  unfolding rehash
  rebuild D index =
      let new_cap = capacity_at index in
      record D {
        buckets = rehash new_cap D.buckets (replicate new_cap []);
        capacity_index = index;
        capacity = new_cap;
      }

  -- `_ndict_resize(dict, 1)`; `none` is its `assert(0)`.
  pub grow : Dictionary V → Option (Dictionary V)
  unfolding rebuild
  grow D =
      if capacity_at (D.capacity_index + 1) == 0
      then none
      else some (rebuild D (D.capacity_index + 1))

  -- `_ndict_resize(dict, -1)`, which is called with a capacity other than 0 only
  pub shrink : Dictionary V → Dictionary V
  unfolding rebuild
  shrink D = if capacity_at (D.capacity_index - 1) == 0 then D else rebuild D (D.capacity_index - 1)

  -- `slist_pop(&free_nodes) ?: _ndict_alloc_nodes(dict, node_size)`, for pages of `items` nodes;
  -- `none` is the use of a null node.
  pub take_node : ℕ → Dictionary V → Option (Dictionary V)
  take_node items D =
      if D.free_nodes == 0
      then (if items == 0
          then none
          else some (record D { pages = D.pages + 1; free_nodes = items - 1 }))
      else some (record D { free_nodes = D.free_nodes - 1 })

  -- `ndict_generic_insert` of a node that was taken before
  pub generic_insert : ℕ → V → Dictionary V → Option (Dictionary V × Bool)
  generic_insert key value D =
      if contains D key then some (record D { free_nodes = D.free_nodes + 1 }, false) else (do
        D1 ← (if ltb D.capacity (D.size * 2 + 1) then grow D else some D)
        some (
          record D1 { buckets = push_node D1.capacity (key, value) D1.buckets; size = D1.size + 1 },
          true,
        ))

  -- `ndict_insert`
  pub insert : ℕ → ℕ → V → Dictionary V → Option (Dictionary V × Bool)
  insert items key value D = do D1 ← take_node items D; generic_insert key value D1

  -- `ndict_generic_remove`
  pub remove : ℕ → Dictionary V → Dictionary V × Bool
  remove key D =
      if contains D key
      then (let i = hash D.capacity key in
          let D1 = record D {
            buckets = set D.buckets i (unlink key (get_or D.buckets i []));
            free_nodes = D.free_nodes + 1;
            size = D.size - 1;
          } in
          (if ltb (D1.size * 4) D1.capacity then shrink D1 else D1, true))
      else (D, false)
