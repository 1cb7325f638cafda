-- ===== src/Http/Replies.antt =====
-- api/http: what a handler writes to its response. A handler that goes on after an error writes
-- twice; of the statuses the first is sent.
use deviceconnect.Prelude.{ℕ, List}
use deviceconnect.Errors.{Error, device_not_found}
use deviceconnect.Store.Devices.{Device}

pub data Reply : Type 0 where
  -- `c.JSON(status, gin.H{"error": ...})`
  error_reply : ℕ → Error → Reply
  -- `c.JSON(http.StatusOK, device)`
  device_reply : Device → Reply
  -- `c.JSON(status, nil)`, or the status alone
  status_reply : ℕ → Reply

abbrev pub Replies : Type 0
Replies = List Reply

-- The branches on the error of the app's `GetDevice`, which `GetDevice` and the two
-- `sendMenderCommand` of the handlers share.
abbrev pub device_error_reply : Error → Reply
device_error_reply device_not_found = error_reply 404 device_not_found
device_error_reply e = error_reply 400 e
