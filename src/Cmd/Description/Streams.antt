-- ===== src/Cmd/Description/Streams.antt =====
-- The streams that --describe lists in cmd/outage/describe.go.
use outage.Base.{[], codes}
use outage.Cmd.Description.Types.{StreamDescription}

-- StreamSemantics
abbrev pub stream_semantics : StreamDescription
stream_semantics = record {
  stdin = record {
    role = codes "input";
    description =
        codes
          "Primary input stream read from stdin and forwarded until a condition cutoff, EOF, or an I/O error.";
    format = [];
    option = [];
  };
  stdout = record {
    role = codes "passthrough";
    description =
        codes
          "Primary output stream containing the original input bytes byte-for-byte and in order until cutoff.";
    format = [];
    option = [];
  };
  stderr = record {
    role = codes "diagnostics";
    description =
        codes
          "Human-readable diagnostics, warnings, and I/O or argument errors; it is separate from the passthrough data stream.";
    format = [];
    option = [];
  };
  event_fd = record {
    role = codes "observation";
    description =
        codes
          "Optional machine-readable lifecycle event stream written as JSONL when --events-fd is configured. Unix accepts only writable pipe, FIFO, or socket descriptors already configured with O_NONBLOCK; Windows accepts only writable pipe handles whose PIPE_NOWAIT mode and write access are verified at startup. Unsupported or unverifiable descriptors are configuration errors reported before stdin is read. The caller retains ownership and must preserve the required mode while outage runs. When the caller-supplied descriptor is writable and each event write succeeds, delivered records retain the condition-triggered then stream-cutoff order. Delivery is best-effort: an event write failure may omit remaining records; outage attempts one warning to stderr and disables further event records, and delivered records are never reordered. EOF and errors emit no event-FD records. A short write may leave an incomplete final JSONL record.";
    format = codes "jsonl";
    option = codes "--events-fd";
  };
}
