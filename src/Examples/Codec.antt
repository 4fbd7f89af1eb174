-- ===== src/Examples/Codec.antt =====
-- A concrete encoding of ratchets, by combinators: a number is itself, a list is its length and its
-- elements.
use secure_messager_erlang.Prelude.{
  ℕ, zero, suc, ◌≡◌, refl, ap, sym, ◌∙◌, Bytes, List, [], ◌∷◌, ◌++◌, append_assoc, Option, none,
  some, ℤ, pos, negsuc, length, append-nil,
}
use secure_messager_erlang.Outcome.{Outcome, ok, err, library}
use secure_messager_erlang.Ratchet.DhRatchet.{RatchetState, sending, receiving}
use secure_messager_erlang.Ratchet.DhRatchet.Stored.{StoredChain, StoredRatchet, Gob, GobLaws}

pub record Codec (A : Type 0) : Type 0 where
  pub put : A → List ℕ
  pub get : List ℕ → Option (A × List ℕ)
  pub get-put : (a : A) (rest : List ℕ) → get (put a ++ rest) ≡ some (a, rest)

abbrev head_of : List ℕ → Option (ℕ × List ℕ)
head_of [] = none
head_of (n ∷ ns) = some (n, ns)

abbrev number : Codec ℕ
number = record { put = λ n. n ∷ []; get = head_of; get-put = λ n rest. refl }

module _ {A B : Type 0} where
  abbrev get_two : Codec A → Codec B → List ℕ → Option ((A × B) × List ℕ)
  get_two x y ns = elim (x.get ns) [
    | none ↦ none
    | some (a, ms) ↦ elim (y.get ms) [ none ↦ none | some (b, rest) ↦ some ((a, b), rest) ]
  ]

  pub get_two-put :
      (x : Codec A) (y : Codec B) (p : A × B) (rest : List ℕ)
      → get_two x y ((x.put p.0 ++ y.put p.1) ++ rest) ≡ some (p, rest)
  get_two-put x y (a, b) rest =
      rw
        (
          append_assoc (x.put a) (y.put b) rest,
          x.get-put a (y.put b ++ rest),
          y.get-put b rest,
          get_two,
        )
        refl

  abbrev both : Codec A → Codec B → Codec (A × B)
  both x y = record {
    put = λ p. x.put p.0 ++ y.put p.1;
    get = get_two x y;
    get-put = get_two-put x y;
  }

  abbrev by : (to : B → A) (from : A → B) → ((b : B) → from (to b) ≡ b) → Codec A → Codec B
  by to from back x = record {
    put = λ b. x.put (to b);
    get = λ ns. elim (x.get ns) [ none ↦ none | some (a, rest) ↦ some (from a, rest) ];
    get-put = λ b rest. rw (x.get-put (to b) rest) (ap (λ c. some (c, rest)) (back b));
  }

module _ {A : Type 0} where
  abbrev put_all : Codec A → List A → List ℕ
  put_all x [] = []
  put_all x (a ∷ as') = x.put a ++ put_all x as'

  abbrev get_all : Codec A → ℕ → List ℕ → Option (List A × List ℕ)
  get_all x zero ns = some ([], ns)
  get_all x (suc n) ns = elim (x.get ns) [
    | none ↦ none
    | some (a, ms) ↦ elim (get_all x n ms) [ none ↦ none | some (l, rest) ↦ some (a ∷ l, rest) ]
  ]

  pub get_all-put_all :
      (x : Codec A) (l : List A) (rest : List ℕ)
      → get_all x (length l) (put_all x l ++ rest) ≡ some (l, rest)
  get_all-put_all x [] rest = refl
  get_all-put_all x (a ∷ l) rest =
      rw
        (
          append_assoc (x.put a) (put_all x l) rest,
          x.get-put a (put_all x l ++ rest),
          get_all-put_all x l rest,
          get_all,
        )
        refl

  abbrev counted : Codec A → List ℕ → Option (List A × List ℕ)
  counted x [] = none
  counted x (n ∷ ns) = get_all x n ns

  abbrev list_of : Codec A → Codec (List A)
  list_of x = record {
    put = λ l. length l ∷ put_all x l;
    get = counted x;
    get-put = get_all-put_all x;
  }

  -- An optional value is a list of one element at most.
  abbrev to_list : Option A → List A
  to_list none = []
  to_list (some a) = a ∷ []

  abbrev from_list : List A → Option A
  from_list [] = none
  from_list (a ∷ l) = some a

  pub from_list-to_list : (o : Option A) → from_list (to_list o) ≡ o
  from_list-to_list none = refl
  from_list-to_list (some a) = refl

  abbrev optional : Codec A → Codec (Option A)
  optional x = by to_list from_list from_list-to_list (list_of x)

abbrev signed : ℤ → ℕ × ℕ
signed (pos n) = (0, n)
signed (negsuc n) = (1, n)

abbrev unsigned : ℕ × ℕ → ℤ
unsigned (zero, n) = pos n
unsigned (suc k, n) = negsuc n

pub unsigned-signed : (i : ℤ) → unsigned (signed i) ≡ i
unsigned-signed (pos n) = refl
unsigned-signed (negsuc n) = refl

abbrev integer : Codec ℤ
integer = by signed unsigned unsigned-signed (both number number)

abbrev state_number : RatchetState → ℕ
state_number sending = 0
state_number receiving = 1

abbrev number_state : ℕ → RatchetState
number_state zero = sending
number_state (suc n) = receiving

pub number_state-state_number : (s : RatchetState) → number_state (state_number s) ≡ s
number_state-state_number sending = refl
number_state-state_number receiving = refl

abbrev bytes : Codec Bytes
bytes = list_of number

abbrev chain : Codec StoredChain
chain =
    by
      (λ (s : StoredChain). (
        s.foreign_public_key,
        (s.root_key, (s.chain_key, (s.skipped_message_keys, (s.max_skip, s.previous_index)))),
      ))
      (λ t. record {
        foreign_public_key = t.0;
        root_key = t.1.0;
        chain_key = t.1.1.0;
        skipped_message_keys = t.1.1.1.0;
        max_skip = t.1.1.1.1.0;
        previous_index = t.1.1.1.1.1;
      })
      (λ s. refl)
      (both bytes (
        both bytes
          (both (optional bytes) (both (list_of (both integer bytes)) (both integer integer)))))

abbrev ratchet : Codec StoredRatchet
ratchet =
    by
      (λ (x : StoredRatchet). (
        x.keypair.public_key,
        (
          x.keypair.private_key,
          (
            x.root_key,
            (x.child_key, (x.current_mratchet, (x.previous_mratchets, (x.ratchet_index, x.state)))),
          ),
        ),
      ))
      (λ t. record {
        keypair = record { public_key = t.0; private_key = t.1.0 };
        root_key = t.1.1.0;
        child_key = t.1.1.1.0;
        current_mratchet = t.1.1.1.1.0;
        previous_mratchets = t.1.1.1.1.1.0;
        ratchet_index = t.1.1.1.1.1.1.0;
        state = t.1.1.1.1.1.1.1;
      })
      (λ x. refl)
      (both bytes (
        both bytes (
          both bytes (
            both bytes (
              both chain (
                both (list_of chain) (
                  both number (by state_number number_state number_state-state_number number))))))))

-- All bytes are read.
abbrev whole : Option (StoredRatchet × List ℕ) → Outcome StoredRatchet
whole none = err (library 4)
whole (some (x, rest)) = ok x

abbrev pub encoded : StoredRatchet → Bytes
encoded x = ratchet.put x

abbrev pub toy_gob : Gob
toy_gob = record { encode = λ x. ok (encoded x); decode = λ b. whole (ratchet.get b) }

decode-put : (x : StoredRatchet) → whole (ratchet.get (ratchet.put x)) ≡ ok x
decode-put x =
    ap (λ b. whole (ratchet.get b)) (sym (append-nil (ratchet.put x)))
    ∙ ap whole (ratchet.get-put x [])

pub toy_gob_laws : GobLaws toy_gob
toy_gob_laws = record { decode-encode = λ x encodable e. ap bytes_read (sym e) ∙ decode-put x }
  where
    bytes_read : Outcome Bytes → Outcome StoredRatchet
    bytes_read (ok b) = whole (ratchet.get b)
    bytes_read _ = err (library 4)
