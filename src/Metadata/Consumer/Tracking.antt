-- ===== src/Metadata/Consumer/Tracking.antt =====
-- When an action does what a change of the tables says, and how that composes.
use aidata_pipeline.Prelude.{
  ◌≡◌, refl, ◌⊎◌, inl, inr, true, Option, none, some, arith, Option-cases,
}
use aidata_pipeline.Prelude.Action.{Result, ok, err, ◌>>=◌, Result-cases}
use aidata_pipeline.External.Database.{Database, DatabaseLaws}
use aidata_pipeline.External.Calls.{Outside}
use aidata_pipeline.Metadata.Tables.{Tables}
use aidata_pipeline.Metadata.Events.{Call}
use aidata_pipeline.Metadata.Writes.{World, Service, required, execute}
use aidata_pipeline.Metadata.Consumer.{swallow}
use aidata_pipeline.Metadata.Consumer.Changes.{Change, follow}

-- What an action did, against a change of the tables.
abbrev pub Agrees : {E A : Type 0} → Option A × Tables → Result E A × Tables → Type 0
Agrees (none, db) (ok b, db') = ⊥
Agrees (none, db) (err e, db') = db' ≡ db
Agrees (some a, db) (ok b, db') = (b ≡ a) × (db' ≡ db)
Agrees (some a, db) (err e, db') = ⊥

module _ (d : Database Tables) (o : Outside Call) (laws : DatabaseLaws d) where
  -- Nothing is committed, and unless the transaction is aborted the action does what the change says.
  pub record Tracks {A : Type 0} (f : Change A) (m : Service d o A) : Type 0 where
    pub uncommitted : (s : World d o) → d.committed (m s).1.conn ≡ d.committed s.conn
    pub sticky : (s : World d o) → d.aborted s.conn ≡ true → d.aborted (m s).1.conn ≡ true
    pub agrees :
        (s : World d o)
        → (d.aborted (m s).1.conn ≡ true)
          ⊎ Agrees (f (d.seen s.conn)) ((m s).0, d.seen (m s).1.conn)

  pub execute-Tracks :
      {A : Type 0} (f : Tables → A × Tables)
      → Tracks (λ db. (some (f db).0, (f db).1)) (execute d o f)
  unfolding execute
  execute-Tracks f = record {
    uncommitted = λ s. laws.execute_uncommitted f s.conn;
    sticky = λ s h. elim (Result-cases (d.execute f s.conn).0) [
      | inl (a, e) ↦ ground (arith, h, laws.execute_ok f s.conn)
      | inr (x, e) ↦ ground (arith, laws.execute_err f s.conn)
    ];
    agrees = λ s. elim (Result-cases (d.execute f s.conn).0) [
      | inl (a, e) ↦ inr (ground (arith, laws.execute_ok f s.conn))
      | inr (x, e) ↦ inl (ground (arith, laws.execute_err f s.conn))
    ];
  }

  pub then-Tracks :
      {A B : Type 0} (f : Change A) (g : A → Change B) (m : Service d o A) (k : A → Service d o B)
      → Tracks f m
      → ((a : A) → Tracks (g a) (k a))
      → Tracks (λ db. follow (f db) g) (m >>= k)
  then-Tracks f g m k first after = record {
    uncommitted = λ s. elim (Result-cases (m s).0) [
      | inl (a, e) ↦ ground (arith, e, first.uncommitted s, (after a).uncommitted (m s).1)
      | inr (x, e) ↦ ground (arith, e, first.uncommitted s)
    ];
    sticky = λ s h. elim (Result-cases (m s).0) [
      | inl (a, e) ↦ ground (arith, h, e, first.sticky s, (after a).sticky (m s).1)
      | inr (x, e) ↦ ground (arith, h, e, first.sticky s)
    ];
    agrees = λ s. elim (Result-cases (m s).0) [
      | inl (a, e) ↦ elim (first.agrees s) [
        | inl stopped ↦ inl (ground (arith, e, stopped, (after a).sticky (m s).1))
        | inr same ↦ elim (Option-cases (f (d.seen s.conn)).0) [
          | inl n ↦ ground (arith, e, same, n)
          | inr (b, n) ↦ ground (arith, e, n, same, (after a).agrees (m s).1)
        ]
      ]
      | inr (x, e) ↦ elim (first.agrees s) [
        | inl stopped ↦ inl (ground (arith, e, stopped))
        | inr same ↦ elim (Option-cases (f (d.seen s.conn)).0) [
          | inl n ↦ inr (ground (arith, e, same, n))
          | inr (b, n) ↦ ground (arith, e, same, n)
        ]
      ]
    ];
  }

  pub same-Tracks :
      {A : Type 0} (f g : Change A) (m : Service d o A)
      → Tracks f m
      → ((db : Tables) → f db ≡ g db)
      → Tracks g m
  same-Tracks f g m t h = record {
    uncommitted = t.uncommitted;
    sticky = t.sticky;
    agrees = λ s. ground (arith, t.agrees s, h (d.seen s.conn));
  }

  pub required-Tracks : {A : Type 0} (a : Option A) → Tracks (λ db. (a, db)) (required d o a)
  required-Tracks none = record {
    uncommitted = λ s. refl;
    sticky = λ s h. h;
    agrees = λ s. inr refl;
  }
  required-Tracks (some a) = record {
    uncommitted = λ s. refl;
    sticky = λ s h. h;
    agrees = λ s. inr (refl, refl);
  }

  pub pure-Tracks : {A : Type 0} (a : A) → Tracks (λ db. (some a, db)) (λ s. (ok a, s))
  pure-Tracks a = record {
    uncommitted = λ s. refl;
    sticky = λ s h. h;
    agrees = λ s. inr (refl, refl);
  }

  pub swallow-Tracks :
      (f : Change Unit) (m : Service d o Unit)
      → Tracks f m
      → Tracks (λ db. (some tt, (f db).1)) (swallow d o m)
  swallow-Tracks f m t = record {
    uncommitted = λ s. elim (Result-cases (m s).0) [
      | inl (a, e) ↦ ground (arith, e, t.uncommitted s)
      | inr (x, e) ↦ ground (arith, e, t.uncommitted s)
    ];
    sticky = λ s h. elim (Result-cases (m s).0) [
      | inl (a, e) ↦ ground (arith, h, e, t.sticky s)
      | inr (x, e) ↦ ground (arith, h, e, t.sticky s)
    ];
    agrees = λ s. elim (Result-cases (m s).0) [
      | inl (a, e) ↦ elim (Option-cases (f (d.seen s.conn)).0) [
        | inl n ↦ ground (arith, e, n, t.agrees s)
        | inr (b, n) ↦ ground (arith, e, n, t.agrees s)
      ]
      | inr (x, e) ↦ elim (Option-cases (f (d.seen s.conn)).0) [
        | inl n ↦ ground (arith, e, n, t.agrees s)
        | inr (b, n) ↦ ground (arith, e, n, t.agrees s)
      ]
    ];
  }
