-- ===== src/Storage/FileStore/Write.antt =====
-- The inner loop of `appendFrames` writes its chunk, whatever counts `write` returns.
use telemetry_server.Base.{
  ℕ, zero, suc, ◌+◌, ◌≤◌, ◌<◌, ◌≡◌, refl, ap, sym, subst, ◌∙◌, arith, Bool, true, false, some, [],
  ◌∷◌, ◌++◌, length, take, drop, ==_of_ne, append-nil, append_assoc, length-drop, take-add,
  take-append-drop, ◌==◌,
}
use telemetry_server.Base.Action.{Ensures, Ensures-mono}
use telemetry_server.Protocol.Words.{Bytes}
use telemetry_server.Storage.Disk.{Disk, DiskLaws, Written, WriteLaw, WritePatience, appended}
use telemetry_server.Storage.FileStore.{State, write_all}

module _ {d : Disk} (laws : DiskLaws d) where
  open d use {World}
  open laws use {files, signals}

  -- The active file has grown by these bytes, and nothing else has changed.
  pub record Grew (s : State World) (bytes : Bytes) (t : State World) : Type 0 where
    pub grown : files t.world ≡ appended (files s.world) bytes
    pub fewer_signals : signals t.world ≤ signals s.world
    pub store_is : t.store ≡ s.store

  -- After a failure a prefix of the bytes is there.
  abbrev pub Writes : State World → Bytes → Bool → State World → Type 0
  Writes s bytes true t = Grew s bytes t
  Writes s bytes false t = (k : ℕ) × Grew s (take k bytes) t

  Grew-nothing :
      (s : State World) (w : World)
      → files w ≡ files s.world
      → signals w ≤ signals s.world
      → Grew s [] (record s { world = w })
  Grew-nothing s w f p = record {
    grown = f ∙ ap (λ b. record (files s.world) { active = b }) (sym (append-nil _));
    fewer_signals = p;
    store_is = refl;
  }

  Grew-Grew :
      (s t u : State World) (xs ys : Bytes) → Grew s xs t → Grew t ys u → Grew s (xs ++ ys) u
  Grew-Grew s t u xs ys g h = record {
    grown =
        h.grown
        ∙ ap (λ f. appended f ys) g.grown
        ∙ ap (λ b. record (files s.world) { active = b }) (append_assoc _ xs ys);
    fewer_signals = omega arith;
    store_is = h.store_is ∙ g.store_is;
  }

  -- Bytes written before the rest of the loop.
  Writes-after :
      (s t : State World) (bytes : Bytes) (n : ℕ)
      → Grew s (take n bytes) t
      → (ok : Bool) (u : State World) → Writes t (drop n bytes) ok u
      → Writes s bytes ok u
  Writes-after s t bytes n g true u h =
      subst (λ b. Grew s b u) (take-append-drop n bytes) (Grew-Grew s t u _ _ g h)
  Writes-after s t bytes n g false u (k, h) =
      (n + k, subst (λ b. Grew s b u) (sym (take-add n k bytes)) (Grew-Grew s t u _ _ g h))

  write_round :
      (s : State World) (n : ℕ) (bytes : Bytes) (r : Written) (w : World)
      → signals s.world + length bytes < suc n
      → WriteLaw (files s.world) bytes r (files w)
      → WritePatience (signals s.world) r (signals w)
      → ((b : Bytes) (t : State World)
          → signals t.world + length b < n
          → Ensures (Writes t b) (write_all d n b t))
      → Ensures (Writes s bytes) (elim r [
        | Written.wrote k ↦ elim (k == 0) [
          | true ↦ some (false, record s { world = w })
          | false ↦ write_all d n (drop k bytes) (record s { world = w })
        ]
        | Written.interrupted ↦ write_all d n bytes (record s { world = w })
        | Written.failed ↦ some (false, record s { world = w })
      ])
  write_round s n bytes Written.failed w h l p again = (0, Grew-nothing s w l p)
  write_round s n bytes Written.interrupted w h l p again =
      Ensures-mono _ _ (write_all d n bytes (record s { world = w }))
        (Writes-after s (record s { world = w }) bytes 0 (Grew-nothing s w l (omega arith)))
        (again bytes (record s { world = w }) (omega arith))
  write_round s n bytes (Written.wrote zero) w h l p again =
      (0, record { grown = l.1; fewer_signals = p; store_is = refl })
  write_round s n bytes (Written.wrote (suc k)) w h l p again =
      let e : (suc k == 0) ≡ false = ==_of_ne (omega arith) in
      rw e (
        Ensures-mono _ _ (write_all d n (drop (suc k) bytes) (record s { world = w }))
          (Writes-after s (record s { world = w }) bytes (suc k)
            (record { grown = l.1; fewer_signals = p; store_is = refl }))
          (again (drop (suc k) bytes) (record s { world = w })
            (omega (arith, l.0, length-drop (suc k) bytes))))

  pub write_all_lem :
      (n : ℕ) (bytes : Bytes) (s : State World)
      → signals s.world + length bytes < n
      → Ensures (Writes s bytes) (write_all d n bytes s)
  unfolding write_all
  write_all_lem zero bytes s h = absurd (omega arith)
  write_all_lem (suc n) [] s h = Grew-nothing s s.world refl (omega arith)
  write_all_lem (suc n) (b ∷ bs) s h =
      write_round s n (b ∷ bs) (d.write (b ∷ bs) s.world).0 (d.write (b ∷ bs) s.world).1 h
        (laws.write_law (b ∷ bs) s.world) (laws.write_signals (b ∷ bs) s.world) (write_all_lem n)
