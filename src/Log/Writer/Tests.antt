-- ===== src/Log/Writer/Tests.antt =====
-- The writing thread and the names of files at concrete logs.
use wzy_server.Prelude.{
  ◌≡◌, refl, true, some, [], ◌∷◌, ◌>>=◌, replicate, codes, arith, Returns, digits_from,
}
use wzy_server.Prelude.Int.{pos}
use wzy_server.Samples.{noon, blank_log, two_places}
use wzy_server.Queue.Invariant.{Holds}
use wzy_server.Http.Resource.{last_slash}
use wzy_server.Log.{Log, Time, date_text}
use wzy_server.Log.Writer.{async_write_log}
use wzy_server.Log.Writer.Written.{IsReady, Puts, deliver_all, delivered_in_order}
use wzy_server.Log.Writer.Names.{start_and_rotate, name_forgotten}

abbrev ready_log : Log
ready_log = record blank_log { is_async = true; file = some (codes "f") }

two_places-Holds : Holds two_places []
two_places-Holds = ground arith

ready_log-IsReady : IsReady (codes "f") [] ready_log
ready_log-IsReady = record {
  async = refl;
  free = refl;
  free_queue = refl;
  is_open = refl;
  holds = two_places-Holds;
}

delivered_in_order_example :
    Returns (Puts (codes "f") (codes "a" ∷ codes "b" ∷ []) [] ready_log) (
      deliver_all (codes "a" ∷ codes "b" ∷ []) ready_log >>= λ l.
      async_write_log (replicate 2 []) l)
delivered_in_order_example =
    delivered_in_order (codes "f") [] (codes "a" ∷ codes "b" ∷ []) ready_log ready_log-IsReady
      (omega arith)

abbrev next_day : Time
next_day = record noon { tm_mday = 10 }

name_forgotten_example :
    Returns
      (λ m. m.file ≡ some (codes "2022_05_10"))
      (start_and_rotate
        (λ name. true)
        noon
        next_day
        (codes "ServerLog")
        2000
        800000
        (pos 8)
        blank_log)
unfolding last_slash date_text digits_from
name_forgotten_example =
    name_forgotten (λ name. true) noon next_day (codes "ServerLog") 2000 800000 (pos 8) blank_log
      refl refl refl refl refl (ground arith)
