-- ===== src/Os/Writable.antt =====
-- Paths that can be written to.
use botcoin.Base.{
  ℕ, Text, ◌≡◌, ◌≢◌, sym, subst, true, false, ◌==◌, text_eq, none, some, [], ◌⊎◌, inl, inr, arith,
  Bool-cases, Option-cases,
}
use botcoin.Base.Dict.{lookup, insert, lookup-insert}
use botcoin.Base.Bytes.Path.{dir}
use botcoin.Base.Result.{ok}
use botcoin.Os.Monad.{World, Entry, directory, file, write, fill}
use botcoin.Os.Calls.{write_file, write_entry, is_dir}

-- A plain write to the path succeeds: nothing refuses it or cuts it off, and a file stands there, or nothing does
-- in a directory that exists.
pub record CanWrite (p : Text) (w : World) : Type 0 where
  pub writable : w.fault write p ≡ false
  pub fillable : w.fault fill p ≡ false
  pub room :
      ((m : ℕ) × (old : Text) × (lookup p w.disk ≡ some (file m old)))
      ⊎ ((lookup p w.disk ≡ none) × (is_dir (dir p) w ≡ true))

pub CanWrite-write_file :
    (p body : Text) (mode : ℕ) (w : World)
    → CanWrite p w
    → (m : ℕ) × (write_file p body mode w
        ≡ (ok tt, record w { disk = insert p (file m body) w.disk }))
unfolding write_file
CanWrite-write_file p body mode w c = elim c.room [
  | inl (m, old, there) ↦ (m, rw (c.writable, c.fillable) (rw there))
  | inr (free, parent) ↦ (mode, rw (c.writable, c.fillable) (rw free (rw parent)))
]

-- What an entry that is written leaves, whatever the call around it then says.
write_entry-cases :
    (q body : Text) (mode : ℕ) (w : World)
    → ((write_entry (lookup q w.disk) q body mode w).1 ≡ w)
      ⊎ ((m : ℕ) × (lookup q w.disk ≢ some directory)
          × ((write_entry (lookup q w.disk) q body mode w).1
              ≡ record w { disk = insert q (file m body) w.disk }))
write_entry-cases q body mode w = elim (Option-cases (lookup q w.disk)) [
  | inl free ↦ elim (Bool-cases (is_dir (dir q) w)) [
    | inl d ↦ inr (mode, λ e. cc, rw free (rw d))
    | inr d ↦ inl (rw free (rw d))
  ]
  | inr (e, there) ↦ by_entry e there
]
  where
    by_entry :
        (e : Entry)
        → lookup q w.disk ≡ some e
        → ((write_entry (lookup q w.disk) q body mode w).1 ≡ w)
          ⊎ ((m : ℕ) × (lookup q w.disk ≢ some directory)
              × ((write_entry (lookup q w.disk) q body mode w).1
                  ≡ record w { disk = insert q (file m body) w.disk }))
    by_entry directory there = inl (rw there)
    by_entry (file m old) there = inr (m, λ e. cc, rw there)

-- A write changes nothing, or puts a file where no directory is.
write_file-cases :
    (q body : Text) (mode : ℕ) (w : World)
    → ((write_file q body mode w).1 ≡ w)
      ⊎ ((m : ℕ) × (left : Text) × (lookup q w.disk ≢ some directory)
          × ((write_file q body mode w).1 ≡ record w { disk = insert q (file m left) w.disk }))
unfolding write_file
write_file-cases q body mode w = elim (Bool-cases (w.fault write q)) [
  | inl f ↦ inl (rw f)
  | inr f ↦ elim (Bool-cases (w.fault fill q)) [
    | inl cut ↦ elim (write_entry-cases q [] mode w) [
      | inl e ↦ inl (rw (f, cut) e)
      | inr (m, other, e) ↦ inr (m, [], other, rw (f, cut) e)
    ]
    | inr whole ↦ elim (write_entry-cases q body mode w) [
      | inl e ↦ inl (rw (f, whole) e)
      | inr (m, other, e) ↦ inr (m, body, other, rw (f, whole) e)
    ]
  ]
]

is_dir-insert :
    (d q body : Text) (m : ℕ) (w : World)
    → lookup q w.disk ≢ some directory
    → is_dir d w ≡ true
    → is_dir d (record w { disk = insert q (file m body) w.disk }) ≡ true
unfolding is_dir
is_dir-insert d q body m w other h = ground (arith, lookup-insert d q (file m body) w.disk)

CanWrite-insert :
    (p q body : Text) (m : ℕ) (w : World)
    → lookup q w.disk ≢ some directory
    → CanWrite p w
    → CanWrite p (record w { disk = insert q (file m body) w.disk })
CanWrite-insert p q body m w other c = record {
  writable = c.writable;
  fillable = c.fillable;
  room = elim (Bool-cases (p == q)) [
    | inl e ↦ inl (m, body, ground (arith, lookup-insert p q (file m body) w.disk))
    | inr e ↦ elim c.room [
      | inl (m', old, there) ↦ inl (m', old, ground (arith, lookup-insert p q (file m body) w.disk))
      | inr (free, parent) ↦ inr (
        ground (arith, lookup-insert p q (file m body) w.disk),
        is_dir-insert (dir p) q body m w other parent,
      )
    ]
  ];
}

-- Writing to a path, this or another, leaves it so.
pub write_file-CanWrite :
    (p q body : Text) (mode : ℕ) (w : World)
    → CanWrite p w
    → CanWrite p (write_file q body mode w).1
write_file-CanWrite p q body mode w c = elim (write_file-cases q body mode w) [
  | inl e ↦ subst (CanWrite p) (sym e) c
  | inr (m, left, other, e) ↦ subst (CanWrite p) (sym e) (CanWrite-insert p q left m w other c)
]
