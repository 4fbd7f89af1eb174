-- ===== src/Gui/Router.antt =====
-- client/internal/gioui/pages/page.go: the router, which shows one of the registered pages.
use secure_messager_erlang.Prelude.{
  ◌≡◌, refl, sym, ◌∙◌, arith, ◌⊎◌, Bool-cases, List, [], ◌∷◌, Option, none, some, Option-cases,
  if◌then◌else◌, inl, inr, Eq, Assoc, lookup, insert, lookup-insert,
}

pub record Router (K P : Type 0) : Type 0 where
  pub pages : Assoc K P
  pub current : Option K

module _ {K P : Type 0} ⦃e : Eq K⦄ where
  unfoldable pub new_router : Router K P
  new_router = record { pages = []; current = none }

  unfoldable pub register : Router K P → K → P → Router K P
  register r tag p = record {
    pages = insert r.pages tag p;
    current = elim r.current [ none ↦ some tag | some t ↦ some t ];
  }

  -- A tag that is not registered is ignored.
  unfoldable pub set_current : Router K P → K → Router K P
  set_current r tag = elim (lookup r.pages tag) [
    | none ↦ r
    | some _ ↦ record r { current = some tag }
  ]

  -- The page that `Layout` lays out, if there is one.
  unfoldable pub shown : Router K P → Option P
  shown r = elim r.current [ none ↦ none | some t ↦ lookup r.pages t ]

  -- There is a page to show.
  abbrev pub HasPage : Router K P → Type 0
  HasPage r = (p : P) × (shown r ≡ some p)

  shown_current : (r : Router K P) (t : K) → r.current ≡ some t → shown r ≡ lookup r.pages t
  unfolding shown
  shown_current r t h = rw h refl

  register_first :
      (r : Router K P) (tag : K) (p : P) → r.current ≡ none → shown (register r tag p) ≡ some p
  unfolding register shown
  register_first r tag p h =
      rw h (ground (arith, lookup-insert r.pages tag tag p, e.beq_iff tag tag))

  register_next :
      (r : Router K P) (tag t : K) (p : P)
      → r.current ≡ some t
      → shown (register r tag p) ≡ (if e.beq tag t then some p else lookup r.pages t)
  unfolding register shown
  register_next r tag t p h = rw h (lookup-insert r.pages tag t p)

  -- Registering a page keeps one shown, and shows it if it is the first.
  register-HasPage :
      (r : Router K P) (tag : K) (p : P)
      → (r.current ≡ none) ⊎ HasPage r
      → HasPage (register r tag p)
  register-HasPage r tag p (inl first) = (p, register_first r tag p first)
  register-HasPage r tag p (inr (q, h)) = elim (Option-cases r.current) [
    | inl first ↦ (p, register_first r tag p first)
    | inr (t, at) ↦ elim (Bool-cases (e.beq tag t)) [
      | inl same ↦ (p, register_next r tag t p at ∙ rw same refl)
      | inr other ↦ (q, register_next r tag t p at ∙ rw other (sym (shown_current r t at) ∙ h))
    ]
  ]

  set_current-HasPage : (r : Router K P) (tag : K) → HasPage r → HasPage (set_current r tag)
  unfolding set_current shown
  set_current-HasPage r tag (q, h) = elim (Option-cases (lookup r.pages tag)) [
    | inl unknown ↦ rw (unknown, set_current) (q, h)
    | inr (p, known) ↦ rw (known, set_current) (p, known)
  ]

-- The calls of a router.
pub data Call (K P : Type 0) : Type 0 where
  registers : K → P → Call K P
  sets : K → Call K P

module _ {K P : Type 0} ⦃e : Eq K⦄ where
  unfoldable pub call_all : Router K P → List (Call K P) → Router K P
  call_all r [] = r
  call_all r (registers tag p ∷ calls) = call_all (register r tag p) calls
  call_all r (sets tag ∷ calls) = call_all (set_current r tag) calls

  call_all-HasPage :
      (calls : List (Call K P)) (r : Router K P) → HasPage r → HasPage (call_all r calls)
  unfolding call_all
  call_all-HasPage [] r h = h
  call_all-HasPage (registers tag p ∷ calls) r h =
      call_all-HasPage calls (register r tag p) (register-HasPage r tag p (inr h))
  call_all-HasPage (sets tag ∷ calls) r h =
      call_all-HasPage calls (set_current r tag) (set_current-HasPage r tag h)

  -- A new router shows a page from the first registration on, whatever is registered or set then,
  -- known or not.
  router_shows :
      (tag : K) (p : P) (calls : List (Call K P))
      → HasPage (call_all (register new_router tag p) calls)
  unfolding new_router
  router_shows tag p calls =
      call_all-HasPage calls (register new_router tag p)
        (register-HasPage new_router tag p (inl refl))
