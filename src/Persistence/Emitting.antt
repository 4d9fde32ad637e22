-- ===== src/Persistence/Emitting.antt =====
-- The writing macros of storage.include/macros.h, and a calculus of what a writing function emits.
use hybrid_databases.Base.{
  ℕ, ◌+◌, ◌^◌, ◌≤◌, ◌≡◌, refl, sym, ap, ◌∙◌, arith, Option, some, List, [], ◌∷◌, ◌++◌, length,
  length-append, append-nil, append_assoc, subst,
}
use mathlib.Core.Path.{fun_ext}
use hybrid_databases.Base.Options.{◌>>=◌}
use hybrid_databases.Storage.Format.{array_begin, array_end, string_mark}
use hybrid_databases.Storage.Codes.{digits, length_bytes, length-digits}
use hybrid_databases.Storage.Writer.{
  Writer, ptr, write_array, write_array_end, write_string, write_number,
}
use hybrid_databases.Storage.Writer.Bounds.{
  IsValid, Appended, Appended-bind, Appended-depth, ptr-Appends, Appends-IsValid, write_array_lem,
  write_array_end_lem, write_string_lem, write_number_lem, one_byte_length,
}
use hybrid_databases.Storage.Items.{Item, Items, str, arr, nil, cons, encode, encode_items}

-- `wArray { ... } wArrayEnd`
unfoldable pub w_array : (Writer → Option Writer) → Writer → Option Writer
w_array body W = do W1 ← write_array W; W2 ← body W1; write_array_end W2

-- The element that `write_number` writes: its digits are a string.
abbrev pub num : ℕ → Item
num n = str (digits n)

pub number_bytes : (n : ℕ) → encode (num n) ≡ (string_mark + length (digits n)) ∷ digits n
unfolding encode
number_bytes n =
    let e : length (digits n) + string_mark ≡ string_mark + length (digits n) = omega arith in
    rw (one_byte_length (length (digits n) + string_mark) (omega (arith, length-digits n)))
      (ap (λ (k : ℕ). k ∷ digits n) e)

-- Into a valid writer at depth `d` with room up to 2 ^ 61, `f` succeeds within the buffer, appends
-- `bs`, and leaves the depth `d'`.
pub record Emits (f : Writer → Option Writer) (bs : List ℕ) (d d' : ℕ) : Type 0 where
  pub run :
      (W : Writer)
      → IsValid W
      → W.depth ≡ d
      → ptr W + length bs + 9 ≤ 2 ^ 61
      → Appended W bs d' (f W)

pub Emits-eq :
    {f : Writer → Option Writer} {bs cs : List ℕ} {d d' : ℕ}
    → bs ≡ cs
    → Emits f bs d d'
    → Emits f cs d d'
Emits-eq {f} {d} {d'} e x = subst (λ bs. Emits f bs d d') e x

pub Emits-bind :
    {f g : Writer → Option Writer} {bs cs : List ℕ} {d d1 d2 : ℕ}
    → Emits f bs d d1
    → Emits g cs d1 d2
    → Emits (λ W. f W >>= g) (bs ++ cs) d d2
Emits-bind {f} {g} {bs} {cs} x y = record {
  run = λ W v e h. Appended-bind g (x.run W v e (omega (arith, length-append bs cs))) λ W1 a.
      y.run W1 (Appends-IsValid a) a.depth (omega (arith, ptr-Appends a, length-append bs cs));
}

pub Emits-array_begin : (d : ℕ) → Emits write_array (array_begin ∷ []) d (d + 1)
Emits-array_begin d = record {
  run = λ W v e h.
      let (W', q, a) = write_array_lem v (omega arith) in
      (
        W',
        q,
        record {
          sealed = a.sealed;
          cur = a.cur;
          depth = a.depth ∙ ap (λ (n : ℕ). n + 1) e;
          room = a.room;
          small = a.small;
        },
      );
}

pub Emits-array_end : (d : ℕ) → Emits write_array_end (array_end ∷ []) (d + 1) d
Emits-array_end d = record { run = λ W v e h. write_array_end_lem d v e (omega arith) }

-- At any depth, `f` writes the element `x`, or the elements `xs` one behind the other.
pub record Writes (f : Writer → Option Writer) (x : Item) : Type 0 where
  pub emits : (d : ℕ) → Emits f (encode x) d d

pub record WritesAll (f : Writer → Option Writer) (xs : Items) : Type 0 where
  pub emits : (d : ℕ) → Emits f (encode_items xs) d d

pub Writes-string : (s : List ℕ) → Writes (λ W. write_string W s) (str s)
unfolding encode
Writes-string s = record {
  emits = λ d. record {
    run = λ W v e h. Appended-depth e (
        write_string_lem s v
          (omega (arith, length-append (length_bytes (length s + string_mark)) s)));
  };
}

pub Writes-number : (n : ℕ) → Writes (λ W. write_number W n) (num n)
Writes-number n = record {
  emits = λ d. Emits-eq (sym (number_bytes n)) (record {
    run = λ W v e h. Appended-depth e (write_number_lem n v (omega (arith, length-digits n)));
  });
}

pub WritesAll-none : WritesAll (λ W. some W) nil
unfolding encode_items
WritesAll-none = record {
  emits = λ d. record {
    run = λ W v e h. (
      W,
      refl,
      record {
        sealed = refl;
        cur = sym (append-nil W.cur);
        depth = e;
        room = v.room;
        small = v.small;
      },
    );
  };
}

pub WritesAll-last : {f : Writer → Option Writer} {x : Item} → Writes f x → WritesAll f (cons x nil)
unfolding encode_items
WritesAll-last {x} a = record { emits = λ d. Emits-eq (sym (append-nil (encode x))) (a.emits d) }

pub WritesAll-cons :
    {f g : Writer → Option Writer} {x : Item} {xs : Items}
    → Writes f x
    → WritesAll g xs
    → WritesAll (λ W. f W >>= g) (cons x xs)
unfolding encode_items
WritesAll-cons a b = record { emits = λ d. Emits-bind (a.emits d) (b.emits d) }

pub Writes-array :
    {body : Writer → Option Writer} {xs : Items}
    → WritesAll body xs
    → Writes (w_array body) (arr xs)
unfolding encode w_array
Writes-array b = record {
  emits = λ d. Emits-bind (Emits-array_begin d) (Emits-bind (b.emits (d + 1)) (Emits-array_end d));
}

-- An array for each of the things `xs`
abbrev pub arrays : {X : Type 0} → (X → Items) → List X → Items
arrays parts [] = nil
arrays parts (x ∷ xs) = cons (arr (parts x)) (arrays parts xs)

unfoldable pub append_items : Items → Items → Items
append_items nil ys = ys
append_items (cons x xs) ys = cons x (append_items xs ys)

pub encode_items-append :
    (xs ys : Items) → encode_items (append_items xs ys) ≡ encode_items xs ++ encode_items ys
unfolding append_items encode_items
encode_items-append nil ys = refl
encode_items-append (cons x xs) ys =
    rw (encode_items-append xs ys)
      (sym (append_assoc (encode x) (encode_items xs) (encode_items ys)))

pub WritesAll-append :
    {f g : Writer → Option Writer} {xs ys : Items}
    → WritesAll f xs
    → WritesAll g ys
    → WritesAll (λ W. f W >>= g) (append_items xs ys)
WritesAll-append {xs} {ys} a b = record {
  emits = λ d. Emits-eq (sym (encode_items-append xs ys)) (Emits-bind (a.emits d) (b.emits d));
}

pub ruleset writing =
    (Writes-string, Writes-number, Writes-array, WritesAll-none, WritesAll-last, WritesAll-cons)

pub Writes-ext :
    {f g : Writer → Option Writer} {x : Item} → ((W : Writer) → g W ≡ f W) → Writes g x → Writes f x
Writes-ext {x} e w = subst (λ f. Writes f x) (fun_ext e) w
