-- ===== src/Bot/Handlers/Tables.antt =====
-- The tables that the bot works on, the screens that it shows and the rows of them.
use rotsy.Base.{
  ℕ, ◌+◌, ◌*◌, Bool, not, Option, none, some, List, [], ◌∷◌, Text, text, ltb, any, keep_if, length,
  drop, take, ◌==◌, if◌then◌else◌,
}
use rotsy.Projects.{User, ProjectMember, not_found, Answer, refused, done}
use rotsy.Projects.Members.{Db}

pub record SonarProject : Type 0 where
  pub id : ℕ
  pub project_id : ℕ

-- A `clone_and_analyze` job, with who asked for it.
pub record Analysis : Type 0 where
  pub project_id : ℕ
  pub sonar_project_id : ℕ
  pub by : ℕ

-- A Telegram chat id: those of groups and channels are negative.
pub data ℤ : Type 0 where
  pos : ℕ → ℤ
  negsuc : ℕ → ℤ

-- An account, with the permissions that are loaded with it.
pub record Account : Type 0 where
  pub user : User
  pub is_active : Bool

pub record Link : Type 0 where
  pub id : ℕ
  pub user_id : ℕ
  pub chat_id : ℤ

pub data Screen : Type 0 where
  no_projects : Bool → Screen
  projects_list : List (ℕ × Option Text) → ℕ → Bool → Screen
  project_detail : ℕ → Option Text → Bool → Screen
  members_list : ℕ → List ℕ → Bool → Screen
  candidates : ℕ → ℕ → Screen
  role_picker : Text → ℕ → ℕ → Screen
  member_actions : ℕ → ℕ → Screen
  confirm_remove : ℕ → ℕ → Screen
  repos_list : ℕ → ℕ → Bool → Screen
  admin_home : ℕ → Screen
  admin_links : List ℕ → ℕ → Bool → Screen
  confirm_unlink : ℕ → Screen
  main_menu : Bool → Screen
  success : Text → Screen

pub record World : Type 0 where
  pub db : Db
  pub links : List Link
  pub accounts : List Account
  pub sonar_projects : List SonarProject
  pub analyses : List Analysis

-- What a handler answers: a screen, and the tables as it leaves them.
abbrev pub Shown : Type 0
Shown = Answer (Screen × World)

abbrev pub page_size : ℕ
page_size = 20

-- `xs[page * PAGE_SIZE : page * PAGE_SIZE + PAGE_SIZE]`
abbrev pub page_of : {A : Type 0} → ℕ → List A → List A
page_of page xs = take page_size (drop (page * page_size) xs)

abbrev pub has_more : {A : Type 0} → ℕ → List A → Bool
has_more page xs = ltb (page * page_size + page_size) (length xs)

abbrev pub system_execute : Text
system_execute = text "system:execute"

abbrev pub has_row : ℕ → List ℕ → Bool
has_row id ids = any (λ i. i == id) ids

abbrev pub find_sonar : ℕ → List SonarProject → Option SonarProject
find_sonar id [] = none
find_sonar id (sp ∷ rest) = if sp.id == id then some sp else find_sonar id rest

abbrev pub find_link : ℕ → List Link → Option Link
find_link id [] = none
find_link id (link ∷ links) = if link.id == id then some link else find_link id links

abbrev pub delete_link_row : ℕ → List Link → List Link
delete_link_row id links = keep_if (λ (link : Link). not (link.id == id)) links

-- A row that is there, or the error 404.
abbrev pub or_404 : {A : Type 0} → Option A → Answer A
or_404 none = refused not_found
or_404 (some row) = done row

abbrev pub check_row : Bool → Answer (Unit {0})
check_row there = if there then done tt else refused not_found

abbrev pub role_of : Option ProjectMember → Option Text
role_of none = none
role_of (some m) = some m.project_role
