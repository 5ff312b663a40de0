-- ===== src/Bot/Permitted/Changes.antt =====
-- The changes that the policy permits a user of the bot.
use rotsy.Base.{ℕ, ◌≡◌, true, [], ◌∷◌, ◌++◌, has_text}
use rotsy.Projects.{User, refused, done, assert_can_manage_members, assert_can_run_analysis}
use rotsy.Projects.Policy.{is_done}
use rotsy.Projects.Members.{Db}
use rotsy.Projects.Reachable.{Request, create, delete, add, update, remove, handle}
use rotsy.Bot.Handlers.{Analysis, World, Shown, SonarProject, delete_link_row, system_execute}

-- A change of the members of the project.
abbrev pub IsOfProject : ℕ → Request → Type 0
IsOfProject p (create user) = ⊥
IsOfProject p (delete q) = ⊥
IsOfProject p (add q user_id role) = q ≡ p
IsOfProject p (update q member_id role) = q ≡ p
IsOfProject p (remove q member_id) = q ≡ p

abbrev pub queued : User → SonarProject → Analysis
queued user sp = record { project_id = sp.project_id; sonar_project_id = sp.id; by = user.id }

-- The changes that a user may make: none; one of the members of a project that the policy lets the user
-- manage; the removal of a link, with `system:execute`; an analysis of a project where the policy lets
-- the user run one.
pub data Permitted (user : User) (w : World) : World → Type 0 where
  unchanged : Permitted user w w
  managed :
      (p : ℕ) (request : Request) (db : Db)
      → is_done (assert_can_manage_members user p w.db.members) ≡ true
      → IsOfProject p request
      → handle request w.db ≡ done db
      → Permitted user w (record w { db = db })
  unlinked :
      (id : ℕ)
      → has_text system_execute user.permissions ≡ true
      → Permitted user w (record w { links = delete_link_row id w.links })
  analysed :
      (sp : SonarProject)
      → is_done (assert_can_run_analysis user sp.project_id w.db.members) ≡ true
      → Permitted user w (record w { analyses = w.analyses ++ (queued user sp ∷ []) })

-- The tables after a handler that answers with a screen are permitted.
abbrev pub IfShown : User → World → Shown → Type 0
IfShown user w (refused why) = Unit
IfShown user w (done (screen, after)) = Permitted user w after
