-- ===== src/Http/Status.antt =====
-- api/http/status.go: the answers of the status API. client/workflows/client.go: `CheckHealth`.
use deviceconnect.Prelude.{[], ◌∷◌, Option, none, some, ltb, leb, ◌&&◌, if◌then◌else◌}
use deviceconnect.Errors.{Error, message}
use deviceconnect.Workflows.{Response, transport_error, status}
use deviceconnect.Http.Replies.{Replies, error_reply, status_reply}

-- `Alive`
abbrev pub alive : Replies
alive = status_reply 204 ∷ []

-- `Health`: `pinged` is what the store's `Ping` gives to the app's `HealthCheck`.
unfoldable pub health : Option Error → Replies
health (some e) = error_reply 503 e ∷ []
health none = status_reply 204 ∷ []

-- `Shutdown`: the process is sent a signal, and the answer waits for the timeout.
unfoldable pub shutdown_request : Option Error → Replies
shutdown_request (some e) = error_reply 503 e ∷ []
shutdown_request none = status_reply 202 ∷ []

-- `CheckHealth` of the workflows service: `decoded` is the error that the body of an answer holds.
unfoldable pub check_health : Response → Option Error → Option Error
check_health (transport_error e) decoded = some e
check_health (status code) decoded =
    if leb 200 code && ltb code 300
    then none
    else elim decoded [ some e ↦ some e | none ↦ some (message "health check HTTP error") ]
