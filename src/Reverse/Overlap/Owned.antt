-- ===== src/Reverse/Overlap/Owned.antt =====
-- The listeners that the goroutines of reverse commands own, and what the parts of a command do to them.
use adb_tcp_bridge.Common.{
  ℕ, ◌+◌, ◌≤◌, ◌≡◌, refl, none, some, List, [], ◌∷◌, arith, Bytes, bytes_eq_refl,
}
use adb_tcp_bridge.Reverse.{Mapping, Device, State, lookup, delete, insert, shut, tear_down}
use adb_tcp_bridge.Reverse.Forward.{bind}
use adb_tcp_bridge.Reverse.Listeners.{
  count, handles, Keyed, count-close_listener, lookup-delete, delete-Keyed, count-delete,
}
use adb_tcp_bridge.Reverse.Tidy.{Same, run_device_reverse-Same}
use adb_tcp_bridge.Reverse.Overlap.{
  After, asks, records, Task, checks, evicts, tears, goes_on, kills, kills_all, answered,
}

-- The listeners that a goroutine has bound and that no mapping has yet.
abbrev pub owned_after : After → List ℕ
owned_after (asks local remote h port) = h ∷ []
owned_after (records key remote h reply) = h ∷ []

unfoldable pub owned : Task → List ℕ
owned (checks norebind local remote h port) = h ∷ []
owned (evicts key a) = owned_after a
owned (tears m a) = owned_after a
owned (goes_on a) = owned_after a
owned (kills local m) = []
owned (kills_all ms) = []
owned (answered r) = []

-- The listeners that a goroutine has taken out of the map and will close.
unfoldable pub doomed : Task → List ℕ
doomed (checks norebind local remote h port) = []
doomed (evicts key a) = []
doomed (tears m a) = m.listener ∷ []
doomed (goes_on a) = []
doomed (kills local m) = m.listener ∷ []
doomed (kills_all ms) = handles ms
doomed (answered r) = []

-- `live` and `gone` count the listeners that goroutines own and that they will close.
pub record IsSound (live gone : ℕ → ℕ) (st : State) : Type 0 where
  pub single : (h : ℕ) → live h + gone h + count h (handles st.mappings) ≤ 1
  pub is_open : (h : ℕ) → live h + count h (handles st.mappings) ≤ count h st.listeners
  pub fresh : (h : ℕ) → st.next_listener ≤ h → live h + gone h + count h (handles st.mappings) ≡ 0
  pub keyed : Keyed st.mappings

abbrev pub plus : (ℕ → ℕ) → List ℕ → ℕ → ℕ
plus f xs h = f h + count h xs

pub fewer-IsSound :
    (live gone live' gone' : ℕ → ℕ) (st : State)
    → ((h : ℕ) → live' h ≤ live h)
    → ((h : ℕ) → gone' h ≤ gone h)
    → IsSound live gone st
    → IsSound live' gone' st
fewer-IsSound live gone live' gone' st l g v = record {
  single = λ h. omega (arith, l h, g h, v.single h);
  is_open = λ h. omega (arith, l h, v.is_open h);
  fresh = λ h p. omega (arith, l h, g h, v.fresh h p);
  keyed = v.keyed;
}

pub Same-IsSound :
    (live gone : ℕ → ℕ) (st st' : State)
    → Same st st'
    → IsSound live gone st
    → IsSound live gone st'
Same-IsSound live gone st st' e v = record {
  single = λ h. rw e.same_mappings (v.single h);
  is_open = λ h. rw (e.same_mappings, e.same_listeners) (v.is_open h);
  fresh = λ h p. rw e.same_mappings (v.fresh h (rw e.same_next at p));
  keyed = rw e.same_mappings v.keyed;
}

count-le-delete :
    (x : ℕ) (k : Bytes) (ms : List (Bytes × Mapping))
    → count x (handles (delete k ms)) ≤ count x (handles ms)
unfolding delete count handles
count-le-delete x k [] = omega arith
count-le-delete x k ((i, m) ∷ ms) = ground (arith, count-le-delete x k ms)

module _ (live gone : ℕ → ℕ) (st : State) where
  pub shut-IsSound : (h : ℕ) → IsSound (plus live (h ∷ [])) gone st → IsSound live gone (shut h st)
  unfolding count
  shut-IsSound h v = record {
    single = λ x. omega (arith, v.single x);
    is_open = λ x. ground (arith, count-close_listener x h st.listeners, v.is_open x, v.single x);
    fresh = λ x p. omega (arith, v.fresh x p);
    keyed = v.keyed;
  }

  pub bind-IsSound :
      IsSound live gone st → IsSound (plus live (st.next_listener ∷ [])) gone (bind st)
  unfolding count
  bind-IsSound v = record {
    single = λ x. ground (arith, v.single x, v.fresh x);
    is_open = λ x. ground (arith, v.is_open x);
    fresh = λ x p. ground (arith, v.fresh x);
    keyed = v.keyed;
  }

  pub take_out-IsSound :
      (key : Bytes) (m : Mapping)
      → lookup key st.mappings ≡ some m
      → IsSound live gone st
      → IsSound live (plus gone (m.listener ∷ [])) (record st { mappings = delete key st.mappings })
  unfolding count
  take_out-IsSound key m e v = record {
    single = λ h. omega (arith, v.single h, count-delete h key st.mappings m v.keyed e);
    is_open = λ h. omega (arith, v.is_open h, count-delete h key st.mappings m v.keyed e);
    fresh = λ h p. omega (arith, v.fresh h p, count-delete h key st.mappings m v.keyed e);
    keyed = delete-Keyed key st.mappings v.keyed;
  }

  pub tear_down-IsSound :
      (dev : Device) (local : Bytes) (m : Mapping) (later : List ℕ)
      → IsSound live (plus gone (m.listener ∷ later)) st
      → IsSound live (plus gone later) (tear_down dev local m st).0
  unfolding tear_down count
  tear_down-IsSound dev local m later v =
      Same-IsSound live (plus gone later) _ _ (run_device_reverse-Same dev _ _) (record {
        single = λ h. omega (arith, v.single h);
        is_open = λ h.
            ground (arith, count-close_listener h m.listener st.listeners, v.single h, v.is_open h);
        fresh = λ h p. omega (arith, v.fresh h p);
        keyed = v.keyed;
      })

  pub insert-IsSound :
      (key remote : Bytes) (h : ℕ)
      → IsSound (plus live (h ∷ [])) gone st
      → IsSound live gone (record st {
        mappings = insert key (record { local = key; remote = remote; listener = h }) st.mappings;
      })
  unfolding insert count handles
  insert-IsSound key remote h v = record {
    single = λ x. omega (arith, v.single x, count-le-delete x key st.mappings);
    is_open = λ x. omega (arith, v.is_open x, count-le-delete x key st.mappings);
    fresh = λ x p. omega (arith, v.fresh x p, count-le-delete x key st.mappings);
    keyed = (refl, free, delete-Keyed key st.mappings v.keyed);
  }
    where
      free : lookup key (delete key st.mappings) ≡ none
      free = ground (arith, lookup-delete key key st.mappings, bytes_eq_refl key)
