-- ===== src/Redis/Memory.antt =====
-- A store in memory that does what Redis documents: the hypotheses on the server can be met.
use rotsy.Base.{
  suc, ◌+◌, refl, inl, inr, Option, none, some, Text, text_eq, text_eq_iff, if◌then◌else◌,
  Bool-cases,
}
use rotsy.Redis.{Entry, live, count_of, deadline_of, ttl_of, refreshed, Redis, Sets, Answers}

abbrev Table : Type 0
Table = Text → Option Entry

abbrev update : Table → Text → Option Entry → Table
update table key entry other = if text_eq other key then entry else table other

abbrev pub memory : Redis
memory = record {
  Store = Table;
  stored = λ s. s;
  incr = λ key now s.
      let old = live now (s key) in
      (
        some (suc (count_of old)),
        update s key (some (record { value = suc (count_of old); deadline = deadline_of old })),
      );
  expire = λ key span now s. (some tt, update s key (refreshed (now + span) (live now (s key))));
  set_ex = λ key span now s.
      (some tt, update s key (some (record { value = 1; deadline = some (now + span) })));
  delete = λ key now s. (some tt, update s key none);
  ttl = λ key now s. (some (ttl_of now (live now (s key))), s);
}

abbrev pub empty : Table
empty key = none

update-Sets :
    (s : Table) (key : Text) (entry : Option Entry) → Sets memory s key entry (update s key entry)
update-Sets s key entry = (
  rw ((text_eq_iff key key).1 refl),
  λ other n. elim (Bool-cases (text_eq other key)) [
    | inl e ↦ absurd (n ((text_eq_iff other key).0 e))
    | inr e ↦ rw e
  ],
)

pub memory-Answers : Answers memory
memory-Answers = record {
  incr_lem = λ key now s. (refl, update-Sets s key _);
  expire_lem = λ key span now s. (refl, update-Sets s key _);
  set_ex_lem = λ key span now s. (refl, update-Sets s key _);
  delete_lem = λ key now s. (refl, update-Sets s key none);
  ttl_lem = λ key now s. (refl, refl);
}
