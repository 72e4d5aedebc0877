-- ===== src/App/Loop/Flushed.antt =====
-- How the loop ends.
use lanscope.Base.{refl, inr, inl, [], ◌++◌, true, false, ◌%◌, ◌^◌, ◌+◌}
use lanscope.App.Registered.{handle_event-Reach, trans_Reach}
use lanscope.Registry.Invariant.{here, Reach}
use lanscope.Base.{◌%◌, true, ◌+◌, some, none, ◌⊎◌, ◌∷◌, ◌≡◌, List, ℕ}
use lanscope.App.{flush_all, handle_event, Pipeline}
use lanscope.Registry.{DeviceRegistry}
use lanscope.App.Loop.{
  ticked, shutdown_changed, received, closed, finish, Input, waiting, stopped, tick, capture_loop,
  Outcome,
}
use lanscope.Storage.{Store}
use lanscope.Anomaly.Onnx.{Inference}
use lanscope.Base.Float.{Floats}

module _ (fl : Floats) (inf : Inference fl) (st : Store) where
  -- The loop has returned from `start` by flushing a registry that is reached from the one before.
  abbrev pub IsFlushed : DeviceRegistry → Outcome (Pipeline fl inf st) → Type 0
  IsFlushed start (stopped q m) =
      (r : Pipeline fl inf st) × ((q
          ≡ record r { stored = flush_all fl inf st r.registry r.stored })
        × Reach start r.registry)
  IsFlushed start (waiting q m) = Reach start q.registry

  IsFlushed-from :
      {a b : DeviceRegistry} (o : Outcome (Pipeline fl inf st))
      → Reach a b
      → IsFlushed b o
      → IsFlushed a o
  IsFlushed-from (stopped q m) r (s, (eq, reach)) = (s, (eq, trans_Reach r reach))
  IsFlushed-from (waiting q m) r reach = trans_Reach r reach

  -- Whatever the inputs, the loop changes the registry only by the steps that keep its invariant;
  -- and when it returns, the last thing it does is to hand every device that the registry then
  -- holds to the store.
  pub capture_loop-IsFlushed :
      (p : Pipeline fl inf st) (n : ℕ) (inputs : List Input)
      → IsFlushed p.registry (capture_loop fl inf st p n inputs)
  unfolding capture_loop tick finish
  capture_loop-IsFlushed p n [] = here
  capture_loop-IsFlushed p n (received ev now ∷ rest) =
      let (p', m) = handle_event fl inf st p ev now in
      IsFlushed-from (capture_loop fl inf st p' ((n + m) % 2 ^ 64) rest)
        (handle_event-Reach fl inf st p ev now)
        (capture_loop-IsFlushed (handle_event fl inf st p ev now).0
          ((n + (handle_event fl inf st p ev now).1) % 2 ^ 64) rest)
  capture_loop-IsFlushed p n (closed ∷ rest) = (p, (refl, here))
  capture_loop-IsFlushed p n (ticked ∷ rest) = capture_loop-IsFlushed (tick fl inf st p) n rest
  capture_loop-IsFlushed p n (shutdown_changed none ∷ rest) = (p, (refl, here))
  capture_loop-IsFlushed p n (shutdown_changed (some true) ∷ rest) = (p, (refl, here))
  capture_loop-IsFlushed p n (shutdown_changed (some false) ∷ rest) =
      capture_loop-IsFlushed p n rest

  abbrev pub HasStopped : Outcome (Pipeline fl inf st) → Type 0
  HasStopped (stopped q m) = Unit
  HasStopped (waiting q m) = ⊥

  -- The loop returns once the channel is closed, or the shutdown flag is set or its sender gone,
  -- whatever came before; and what comes after it has returned changes nothing.
  pub capture_loop-HasStopped :
      (p : Pipeline fl inf st) (n : ℕ) (inputs : List Input) (last : Input) (rest : List Input)
      → (last ≡ closed) ⊎ ((last ≡ shutdown_changed none) ⊎ (last ≡ shutdown_changed (some true)))
      → HasStopped (capture_loop fl inf st p n (inputs ++ last ∷ []))
        × (capture_loop fl inf st p n (inputs ++ last ∷ rest)
            ≡ capture_loop fl inf st p n (inputs ++ last ∷ []))
  unfolding capture_loop
  capture_loop-HasStopped p n [] last rest (inl h) = rw h (tt, refl)
  capture_loop-HasStopped p n [] last rest (inr (inl h)) = rw h (tt, refl)
  capture_loop-HasStopped p n [] last rest (inr (inr h)) = rw h (tt, refl)
  capture_loop-HasStopped p n (received ev now ∷ inputs) last rest h =
      capture_loop-HasStopped (handle_event fl inf st p ev now).0
        ((n + (handle_event fl inf st p ev now).1) % 2 ^ 64) inputs last rest h
  capture_loop-HasStopped p n (closed ∷ inputs) last rest h = (tt, refl)
  capture_loop-HasStopped p n (ticked ∷ inputs) last rest h =
      capture_loop-HasStopped (tick fl inf st p) n inputs last rest h
  capture_loop-HasStopped p n (shutdown_changed none ∷ inputs) last rest h = (tt, refl)
  capture_loop-HasStopped p n (shutdown_changed (some true) ∷ inputs) last rest h = (tt, refl)
  capture_loop-HasStopped p n (shutdown_changed (some false) ∷ inputs) last rest h =
      capture_loop-HasStopped p n inputs last rest h
