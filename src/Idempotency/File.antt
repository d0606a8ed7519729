-- ===== src/Idempotency/File.antt =====
-- What is written to the state file is what is read back.
use engine_bot.Shared.{
  ◌≡◌, ◌∙◌, sym, refl, inl, inr, String, eq_iff, Bool, false, none, some, List, [], ◌∷◌, arith,
  Bool-cases, Option-cases, keep, if◌then◌else◌,
}
use engine_bot.Shared.Dict.{
  Dict, lookup, contains, insert, IsUnique, lookup-insert, lookup-none, insert-IsUnique,
}
use engine_bot.Idempotency.Manager.{
  Line, entry, blank, malformed, Disk, Lock, read_lines, read_locks, to_lines, write_locks,
}

read_lines-IsUnique : (ls : List Line) (d : Dict Lock) → IsUnique d → IsUnique (read_lines ls d)
unfolding read_lines
read_lines-IsUnique [] d u = u
read_lines-IsUnique (entry k a x ∷ ls) d u = read_lines-IsUnique ls _ (insert-IsUnique k _ d u)
read_lines-IsUnique (blank ∷ ls) d u = read_lines-IsUnique ls d u
read_lines-IsUnique (malformed ∷ ls) d u = read_lines-IsUnique ls d u

pub read_locks-IsUnique : (d : Disk) → IsUnique (read_locks d)
unfolding read_locks
read_locks-IsUnique d = elim (Option-cases d.file) [
  | inl missing ↦ rw (missing, read_locks) tt
  | inr (ls, e) ↦
      rw (e, read_locks)
        (elim (Bool-cases d.read_fails) [
          | inl bad ↦ rw bad tt
          | inr good ↦ rw good (read_lines-IsUnique ls [] tt)
        ])
]

lookup-read_lines :
    (k : String) (locks d : Dict Lock)
    → IsUnique locks
    → lookup k (read_lines (to_lines locks) d)
      ≡ (if contains k locks then lookup k locks else lookup k d)
unfolding read_lines to_lines lookup contains
lookup-read_lines k [] d u = refl
lookup-read_lines k (e ∷ locks) d u = ground (
  arith,
  eq_iff e.0 k,
  lookup-insert e.0 k e.1 d,
  lookup-read_lines k locks (insert e.0 e.1 d) u.1,
)

-- After a write that does not fail, a read that does not fail finds the locks that were written.
pub lookup-write_locks :
    (k : String) (locks : Dict Lock) (d : Disk)
    → IsUnique locks
    → d.write_fails ≡ false
    → d.read_fails ≡ false
    → lookup k (read_locks (write_locks locks d).1) ≡ lookup k locks
unfolding write_locks read_locks lookup
lookup-write_locks k locks d u w r =
    rw (w, r)
      (lookup-read_lines k locks [] u ∙ elim (Bool-cases (contains k locks)) [
        | inl there ↦ rw there
        | inr gone ↦ rw gone (sym (lookup-none k locks gone))
      ])

-- Filtering a dictionary with unique keys keeps a key's item if the test holds of it.
pub lookup-keep :
    (k : String) (p : Lock → Bool) (d : Dict Lock)
    → IsUnique d
    → lookup k (keep (λ e. p e.1) d)
      ≡ elim (lookup k d) [ none ↦ none | some l ↦ if p l then some l else none ]
unfolding lookup
lookup-keep k p [] u = refl
lookup-keep k p (e ∷ d) u =
    ground (arith, eq_iff e.0 k, lookup-none e.0 d u.0, lookup-keep k p d u.1)

keep-missing :
    (k : String) (p : String × Lock → Bool) (d : Dict Lock)
    → contains k d ≡ false
    → contains k (keep p d) ≡ false
unfolding contains
keep-missing k p [] h = refl
keep-missing k p (e ∷ d) h = ground (arith, keep-missing k p d)

pub keep-IsUnique : (p : String × Lock → Bool) (d : Dict Lock) → IsUnique d → IsUnique (keep p d)
keep-IsUnique p [] u = tt
keep-IsUnique p (e ∷ d) u = ground (arith, keep-missing e.0 p d u.0, keep-IsUnique p d u.1)
