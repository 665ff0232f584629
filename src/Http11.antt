-- ===== src/Http11.antt =====
-- core/downloader/handlers/http11.py: what becomes of a response of HTTP/1.1 once its headers are
-- there: _cb_bodyready of the agent, and the _ResponseReader that collects its body. A deferred is
-- the list of what it was fired with. Twisted's reasons of a lost connection are those that the code
-- tells apart. Certificates, addresses and the reset of the transport are left out; the cancellation
-- of a deferred that has not fired fires it with a failure.

pub mod Parser
mod Reading
mod Laws
mod Folding
mod Tests
use scrapy.Prelude.{
  ℕ, suc, ◌+◌, Bool, true, false, not, ◌&&◌, ◌||◌, Option, none, some, List, [], ◌∷◌, ◌++◌,
  if◌then◌else◌, ltb, nat_beq, get_or, length,
}

pub data Flag : Type 0 where
  partial : Flag
  dataloss : Flag

-- The reasons of connectionLost, `failed` by whether a _DataLoss is among its causes.
pub data Reason : Type 0 where
  response_done : Reason
  potential_data_loss : Reason
  response_failed : Bool → Reason
  other_reason : Reason

pub data Failure : Type 0 where
  cancelled : Failure
  data_loss_error : Failure
  lost : Reason → Failure

-- What the body's deferred is fired with; `stop` is the StopDownload of a signal handler, by its
-- `fail`.
pub data Outcome : Type 0 where
  finish : List ℕ → List Flag → Option Bool → Outcome
  errback : Failure → Outcome

pub record ResponseReader : Type 0 where
  pub finished : List Outcome
  pub bodybuf : List ℕ
  pub maxsize : ℕ
  pub warnsize : ℕ
  pub fail_on_dataloss : Bool
  pub reached_warnsize : Bool
  pub bytes_received : ℕ

-- _ResponseReader.__init__
unfoldable pub new_reader : ℕ → ℕ → Bool → Bool → ResponseReader
new_reader maxsize warnsize fail_on_dataloss reached = record {
  finished = [];
  bodybuf = [];
  maxsize = maxsize;
  warnsize = warnsize;
  fail_on_dataloss = fail_on_dataloss;
  reached_warnsize = reached;
  bytes_received = 0;
}

-- self._finished.called
unfoldable pub called : ResponseReader → Bool
called r = elim r.finished [ [] ↦ false | o ∷ os ↦ true ]

unfoldable pub fire : Outcome → ResponseReader → ResponseReader
fire o r = record r { finished = o ∷ r.finished }

unfoldable pub finish_response : List Flag → Option Bool → ResponseReader → ResponseReader
finish_response flags stop r = fire (finish r.bodybuf flags stop) r

-- self._finished.cancel()
unfoldable pub cancel : ResponseReader → ResponseReader
cancel r = if called r then r else fire (errback cancelled) r

-- The check of the maximum size, in dataReceived.
unfoldable pub check_maxsize : ResponseReader → ResponseReader
check_maxsize r =
    if ltb 0 r.maxsize && ltb r.maxsize r.bytes_received
    then cancel (record r { bodybuf = [] })
    else r

unfoldable pub check_warnsize : ResponseReader → ResponseReader
check_warnsize r =
    if ltb 0 r.warnsize && ltb r.warnsize r.bytes_received && not r.reached_warnsize
    then record r { reached_warnsize = true }
    else r

unfoldable pub data_received : List ℕ → Option Bool → ResponseReader → ResponseReader
data_received chunk stop r =
    let r1 = record r {
      bodybuf = r.bodybuf ++ chunk;
      bytes_received = r.bytes_received + length chunk;
    } in
    let r2 : ResponseReader = elim stop [
      | none ↦ r1
      | some fail ↦ finish_response [] (some fail) r1
    ] in
    if called r then r else check_warnsize (check_maxsize r2)

-- connectionLost, for a deferred that has not fired
unfoldable pub lose : Reason → ResponseReader → ResponseReader
lose response_done r = finish_response [] none r
lose potential_data_loss r = finish_response (partial ∷ []) none r
lose (response_failed true) r =
    if r.fail_on_dataloss
    then fire (errback data_loss_error) r
    else finish_response (dataloss ∷ []) none r
lose (response_failed false) r = fire (errback (lost (response_failed false))) r
lose other_reason r = fire (errback (lost other_reason)) r

unfoldable pub connection_lost : Reason → ResponseReader → ResponseReader
connection_lost reason r = if called r then r else lose reason r

pub data Event : Type 0 where
  receive : List ℕ → Option Bool → Event
  lose_connection : Reason → Event
  -- the cancellation of the download, on its timeout
  cancel_download : Event

unfoldable pub step : Event → ResponseReader → ResponseReader
step (receive chunk stop) r = data_received chunk stop r
step (lose_connection reason) r = connection_lost reason r
step cancel_download r = cancel r

unfoldable pub run : List Event → ResponseReader → ResponseReader
run [] r = r
run (x ∷ xs) r = run xs (step x r)

-- The settings of the agent, and the meta keys that override them.
pub record Limits : Type 0 where
  pub maxsize : ℕ
  pub warnsize : ℕ
  pub fail_on_dataloss : Bool

pub record Meta : Type 0 where
  pub download_maxsize : Option ℕ
  pub download_warnsize : Option ℕ
  pub download_fail_on_dataloss : Option Bool

pub data Ready : Type 0 where
  -- a result without a body
  done : Option Bool → Ready
  -- DownloadCancelledError
  refused : Ready
  reading : ResponseReader → Ready

-- _cb_bodyready: `stop` is the StopDownload of a handler of headers_received, and `none` for the
-- length is UNKNOWN_LENGTH.
unfoldable pub cb_bodyready : Limits → Meta → Option Bool → Option ℕ → Ready
cb_bodyready l m stop size =
    let maxsize = get_or m.download_maxsize l.maxsize in
    let warnsize = get_or m.download_warnsize l.warnsize in
    let expected = get_or size 0 in
    elim stop [
      | some fail ↦ done (some fail)
      | none ↦
          if nat_beq (get_or size 1) 0
          then done none
          else (if ltb 0 maxsize && ltb maxsize expected
              then refused
              else reading (
                  new_reader maxsize warnsize
                    (get_or m.download_fail_on_dataloss l.fail_on_dataloss)
                    (ltb 0 warnsize && ltb warnsize expected)))
    ]
