-- ===== src/Registries/Declared/Endpoints.antt =====
-- The registries that a connector block gives, and those that the rows of an answer give.
use rotsy.Base.{
  ℕ, ◌≡◌, refl, sym, ap, subst, ◌⊎◌, inl, inr, true, Option, none, some, List, [], ◌∷◌, Text, text,
  text_eq, text_eq_sound, Dict, insert, text_key, ◌==◌, ==_iff, All, Any, All-map, Bool-cases,
  Option-cases,
}
use rotsy.Registries.{DockerRegistry, DiscoveryResult}
use rotsy.Registries.Discovery.{
  DockerBlock, Row, replied, Built, registry, reason, is_port, endpoint, registry_from_docker_block,
  no_port, add_built, add_rows, empty_result,
}

-- Every entry of a dictionary after an assignment is an old one or the new one.
All-insert :
    {A : Type 0} (P : Text × A → Type 0) (k : Text) (v : A) (d : Dict Text A)
    → P (k, v)
    → All P d
    → All P (insert k v d)
All-insert P k v [] h hs = (h, tt)
All-insert P k v ((j, w) ∷ d) h (old, hs) = elim (Bool-cases (text_eq j k)) [
  | inl e ↦ rw e (subst (λ t. P (t, v)) (sym (text_eq_sound j k e)) h, hs)
  | inr e ↦ rw e (old, All-insert P k v d h hs)
]

-- What holds of an element holds of one of the list.
self_in :
    {A E : Type 0} (P : E → A → Type 0) (xs : List A) → All (λ x. (e : E) → P e x → Any (P e) xs) xs
self_in P [] = tt
self_in {A = A} {E = E} P (x ∷ xs) =
    let older : (y : A) → ((e : E) → P e y → Any (P e) xs) → (e : E) → P e y → Any (P e) (x ∷ xs) =
      λ y k e h. inr (k e h) in
    (λ e h. inl h, All-map older xs (self_in P xs))

-- The port and scheme of a registry are those of the connector that is declared: HTTPS where there
-- is one.
abbrev pub Serves : DockerBlock → DockerRegistry → Type 0
Serves block r =
    ((is_port block.https_port ≡ some r.port) × (r.scheme ≡ text "https"))
    ⊎ ((is_port block.https_port ≡ none)
        × (is_port block.http_port ≡ some r.port)
        × (r.scheme ≡ text "http"))

-- A registry of that name, host and source, on a connector of the block.
abbrev pub IsEndpoint : Text → Text → DockerBlock → Text × DockerRegistry → Type 0
IsEndpoint host source block (name, r) =
    (r.repo ≡ name) × (r.host ≡ host) × (r.source ≡ source) × Serves block r

-- What a built registry satisfies; a reason says nothing.
abbrev pub IfBuilt : (Text × DockerRegistry → Type 0) → Option (Text × Built) → Type 0
IfBuilt P none = Unit
IfBuilt P (some (name, registry r)) = P (name, r)
IfBuilt P (some (name, reason why)) = Unit

pub IfBuilt-at :
    (P : Text × DockerRegistry → Type 0) (o u : Option (Text × Built))
    → o ≡ u
    → IfBuilt P u
    → IfBuilt P o
IfBuilt-at P o u e h = subst (IfBuilt P) (sym e) h

pub IfBuilt-map :
    (P Q : Text × DockerRegistry → Type 0) (o : Option (Text × Built))
    → ((e : Text × DockerRegistry) → P e → Q e)
    → IfBuilt P o
    → IfBuilt Q o
IfBuilt-map P Q none f h = tt
IfBuilt-map P Q (some (name, registry r)) f h = f (name, r) h
IfBuilt-map P Q (some (name, reason why)) f h = tt

module _ (name kind host source : Text) (block : DockerBlock) where
  abbrev pub block_row : Option (Text × Built)
  block_row = some (name, registry_from_docker_block name kind block host source)

  abbrev pub IsOfBlock : Text × DockerRegistry → Type 0
  IsOfBlock e = (name ≡ e.0) × IsEndpoint host source block e

  block_value :
      (b : Built)
      → registry_from_docker_block name kind block host source ≡ b
      → IfBuilt IsOfBlock (some (name, b))
      → IfBuilt IsOfBlock block_row
  block_value b e = IfBuilt-at IsOfBlock block_row (some (name, b)) (ap (λ x. some (name, x)) e)

  pub block_row-IsOfBlock : IfBuilt IsOfBlock block_row
  unfolding registry_from_docker_block
  block_row-IsOfBlock = elim (Option-cases (is_port block.https_port)) [
    | inr (port, e) ↦
        block_value (registry (endpoint name kind host source port (text "https")))
          (rw (e, registry_from_docker_block) refl) (refl, (refl, refl, refl, inl (e, refl)))
    | inl e ↦ elim (Option-cases (is_port block.http_port)) [
      | inr (port, q) ↦
          block_value (registry (endpoint name kind host source port (text "http")))
            (rw (e, q, registry_from_docker_block) refl)
            (refl, (refl, refl, refl, inr (e, q, refl)))
      | inl q ↦ block_value (reason no_port) (rw (e, q, registry_from_docker_block) refl) tt
    ]
  ]

pub replied_at :
    (status : ℕ) (body : Option (Option DockerBlock)) (block : Option DockerBlock)
    → status == 200 ≡ true
    → body ≡ some block
    → replied status body ≡ replied 200 (some block)
replied_at status body block e q = rw ((==_iff status 200).0 e, q) refl

add_rows-All :
    (P : Text × DockerRegistry → Type 0) (f : Row → Option (Text × Built)) (rows : List Row)
    (result : DiscoveryResult)
    → All (λ row. IfBuilt P (f row)) rows
    → All P result.registries
    → All P (add_rows f rows result).registries
unfolding add_rows
add_rows-All P f [] result h hs = hs
add_rows-All P f (row ∷ rows) result (h, k) hs =
    add_rows-All P f rows (add_built (f row) result) k (step (f row) h)
  where
    step : (o : Option (Text × Built)) → IfBuilt P o → All P (add_built o result).registries
    step none q = hs
    step (some (name, registry r)) q = All-insert P name r result.registries q hs
    step (some (name, reason why)) q = hs

-- Where each registry that a row gives is declared by the row, those of all rows are declared by one
-- of them.
pub add_rows-Any :
    (P : Text × DockerRegistry → Row → Type 0) (f : Row → Option (Text × Built)) (rows : List Row)
    (source : Text)
    → ((row : Row) → IfBuilt (λ e. P e row) (f row))
    → All (λ e. Any (P e) rows) (add_rows f rows (empty_result source)).registries
add_rows-Any P f rows source h =
    let weaken : (row : Row)
        → ((e : Text × DockerRegistry) → P e row → Any (P e) rows)
        → IfBuilt (λ e. Any (P e) rows) (f row) =
      λ row k. IfBuilt-map (λ e. P e row) (λ e. Any (P e) rows) (f row) k (h row) in
    add_rows-All (λ e. Any (P e) rows) f rows (empty_result source)
      (All-map weaken rows (self_in P rows)) tt
