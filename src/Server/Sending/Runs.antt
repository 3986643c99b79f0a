-- ===== src/Server/Sending/Runs.antt =====
-- A run of the sending over a connection that takes what fits.
use hysteria.Common.{
  ℕ, ◌+◌, ◌<◌, refl, List, [], ◌∷◌, ◌++◌, Option, none, some, true, leb, if◌then◌else◌, length,
  replicate, arith,
}
use hysteria.Protocol.Varint.Rfc9000.{rfc9000, rfc9000-IsRfc9000}
use hysteria.Protocol.Udp.{UdpMessage, size, header_size}
use hysteria.Server.Sending.{
  SendError, too_large, UdpIo, bool_logger, SendState, send_message, send_message_auto_frag,
}
use hysteria.Server.Sending.Delivery.{
  Limits, IsSendable, SendOutcome, send_message_auto_frag_delivers,
}

abbrev taking : ℕ → List (List ℕ) → List ℕ → Option SendError × List (List ℕ)
taking max_size conn d =
    if leb (length d) max_size then (none, conn ++ (d ∷ [])) else (some (too_large max_size), conn)

-- A connection that takes what fits, and a logger that adds up the bytes.
abbrev limited : ℕ → UdpIo (List (List ℕ)) ℕ
limited max_size = record {
  auth_id = 7;
  send_datagram = taking max_size;
  close_with_error = λ conn. conn;
  traffic_logger = bool_logger (λ l id tx rx. (true, l + rx));
}

limited-Limits : (max_size : ℕ) → Limits (limited max_size) max_size (λ l n. l + n)
limited-Limits max_size = record {
  takes = λ conn d h. ground (arith, h);
  refuses = λ conn d h. ground (arith, h);
  allows = λ n s. refl;
}

abbrev reply : UdpMessage
reply = record {
  session_id = 3;
  packet_id = 0;
  frag_id = 0;
  frag_count = 1;
  addr = 97 ∷ [];
  payload = 1 ∷ 2 ∷ 3 ∷ 4 ∷ 5 ∷ [];
}

abbrev limit : ℕ
limit = header_size rfc9000 reply + 2

reply_large : limit < size rfc9000 reply
reply_large = unfold size in omega arith

reply-IsSendable : IsSendable reply
reply-IsSendable = record {
  in_range = record {
    session_id_range = omega arith;
    packet_id_range = omega arith;
    frag_id_range = omega arith;
    frag_count_range = omega arith;
  };
  addressed = omega arith;
  short = omega arith;
  filled = omega arith;
}

abbrev idle : SendState (List (List ℕ)) ℕ
idle = record { buf = replicate 64 0; conn = []; logged = 0 }

send_message_auto_frag_delivers_example :
    SendOutcome rfc9000-IsRfc9000
      (limited-Limits limit)
      41
      idle
      reply
      (send_message_auto_frag (send_message rfc9000 (limited limit)) rfc9000 41 idle reply)
send_message_auto_frag_delivers_example =
    send_message_auto_frag_delivers rfc9000-IsRfc9000 (limited-Limits limit) 41 2 idle reply
      reply-IsSendable (omega arith) refl (omega arith) reply_large (omega arith)
