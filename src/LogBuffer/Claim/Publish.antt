-- ===== src/LogBuffer/Claim/Publish.antt =====
-- What a reader finds where a claim was committed or aborted.
use caeron.Buffer.{Buffer}
