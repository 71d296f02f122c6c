-- ===== src/Thread/Tests.antt =====
-- A run of code/Thread.cpp in which a thread is started, stopped while it runs, joined and started again.
use mlnotes.Base.{◌≡◌, inr, refl, arith}
use mlnotes.Thread.{
  idle, joined, processing, ts_stopping, ts_stopped, ts_ready, ts_starting, starting, creating,
  absent, Situation, Run, halt, next, call_start, set_starting, create, start_returns, swap, enter,
  call_stop, set_stopping, continues, stop_seen, leave, stop_returns, set_stopped, call_join,
  join_ends, set_ready, ready,
}
use mlnotes.Thread.Alone.{start-alone}
use mlnotes.Thread.Stop.{stop-heard, entries}

abbrev started_again : Situation
started_again = record { word = ts_starting; owner = creating; runner = absent }

twice : Run ready started_again
twice = next call_start (
    next set_starting (
      next create (
        next start_returns (
          next swap (
            next (enter (λ e. ground arith)) (
              next (call_stop (inr refl)) (
                next set_stopping (
                  next continues (
                    next stop_seen (
                      next leave (
                        next stop_returns (
                          next set_stopped (
                            next (call_join (λ e. ground arith)) (
                              next join_ends (
                                next set_ready
                                  (next call_start (next set_starting halt)))))))))))))))))

start-alone_example :
    (started_again.word ≡ ts_ready → started_again.runner ≡ absent)
    × (started_again.owner ≡ starting → started_again.runner ≡ absent)
    × (started_again.owner ≡ creating → started_again.runner ≡ absent)
start-alone_example = start-alone started_again twice

-- A thread that is told to stop while it is in `onProcess`.
abbrev told_to_stop : Situation
told_to_stop = record { word = ts_stopping; owner = idle; runner = processing }

told : Run ready told_to_stop
told = next call_start (
    next set_starting (
      next create (
        next start_returns (
          next swap (
            next (enter (λ e. ground arith))
              (next (call_stop (inr refl)) (next set_stopping halt)))))))

abbrev returned : Situation
returned = record { word = ts_stopped; owner = joined; runner = absent }

abbrev obeyed : Run told_to_stop returned
obeyed = next continues (
    next stop_seen (
      next leave (
        next stop_returns
          (next set_stopped (next (call_join (λ e. ground arith)) (next join_ends halt))))))

stop-heard_example : entries obeyed ≡ 0
stop-heard_example = stop-heard told_to_stop returned told obeyed refl refl
